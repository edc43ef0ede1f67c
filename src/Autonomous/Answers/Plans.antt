-- ===== src/Autonomous/Answers/Plans.antt =====
-- What the parsers make of any answer of a model.
use ai_agents_enterprise.Prelude.{
  ap, or_else, some_injective, none_ne_some, subst, ◌≤◌, String, ◌≡◌, true, Option, none, some,
  Option-cases, List, [], ◌∷◌, length, length-take, inl, inr, arith,
}
use ai_agents_enterprise.Autonomous.Answers.{
  Json, null, boolean, number, text, array, object, Fields, Plan, extract_json, object_in, field_of,
  iterate, is_true, plan_or_goal, listed_steps, parse_plan, parse_reflection, max_plan_steps,
}

object_in-eq_some : (x : Option Json) (fs : Fields) → object_in x ≡ some fs → x ≡ some (object fs)
object_in-eq_some (some (object fs')) fs e = ap (λ o. some (object (or_else o fs))) e
object_in-eq_some none fs e = cc
object_in-eq_some (some null) fs e = cc
object_in-eq_some (some (boolean b)) fs e = cc
object_in-eq_some (some (number t z)) fs e = cc
object_in-eq_some (some (text t)) fs e = cc
object_in-eq_some (some (array js)) fs e = cc

module _ (loads : String → Option Json) (str : Json → String) (strip : String → String) where
  plan_or_goal_bounds :
      (goal : String) (steps : List String)
      → (1 ≤ length (plan_or_goal loads str strip goal steps).steps)
        × (length (plan_or_goal loads str strip goal steps).steps ≤ max_plan_steps)
  plan_or_goal_bounds goal [] = omega arith
  plan_or_goal_bounds goal (s ∷ ss) = omega (arith, length-take max_plan_steps (s ∷ ss))

  -- A plan that is parsed at all has between one and six steps, whatever the model answered.
  pub parse_plan_bounds :
      (answer goal : String) (plan : Plan)
      → parse_plan loads str strip answer goal ≡ some plan
      → (1 ≤ length plan.steps) × (length plan.steps ≤ max_plan_steps)
  unfolding parse_plan
  parse_plan_bounds answer goal plan e =
      elim (Option-cases
        (listed_steps loads str strip (object_in (extract_json loads str strip answer)))) [
          | inl n ↦ absurd (none_ne_some (rw (parse_plan, n) at e))
          | inr (steps, n) ↦
              let same = some_injective (rw (parse_plan, n) at e) in
              subst (λ p. (1 ≤ length p.steps) × (length p.steps ≤ max_plan_steps)) same
                (plan_or_goal_bounds goal steps)
        ]

  -- An answer whose object gives `null`, a number or a Boolean for its steps raises a TypeError, at
  -- every goal: the planner does not fall back to the goal there.
  pub parse_plan_crashes :
      (answer goal : String) (fs : Fields) (steps : Json)
      → extract_json loads str strip answer ≡ some (object fs)
      → field_of "steps" fs ≡ some steps
      → iterate steps ≡ none
      → parse_plan loads str strip answer goal ≡ none
  unfolding parse_plan
  parse_plan_crashes answer goal fs steps e f i = rw (parse_plan, e) (rw (f) (rw (i)))

  -- A reflection reads as success only if the answer holds an object whose `goal_met` is truthy in
  -- Python: an answer without such an object, or without that key, never declares the goal met.
  pub parse_reflection-met :
      (answer : String)
      → (parse_reflection loads str strip answer).goal_met ≡ true
      → (fs : Fields) × (met : Json) × (extract_json loads str strip answer ≡ some (object fs))
        × (field_of "goal_met" fs ≡ some met)
        × (is_true met ≡ true)
  unfolding parse_reflection
  parse_reflection-met answer h =
      elim (Option-cases (object_in (extract_json loads str strip answer))) [
        | inl n ↦ cc (rw (parse_reflection, n) at h)
        | inr (fs, e) ↦ elim (Option-cases (field_of "goal_met" fs)) [
          | inl n ↦ cc (rw (parse_reflection, e, n) at h)
          | inr (met, f) ↦ (fs, met, object_in-eq_some _ fs e, f, rw (parse_reflection, e, f) at h)
        ]
      ]
