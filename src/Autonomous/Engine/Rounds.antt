-- ===== src/Autonomous/Engine/Rounds.antt =====
-- How `run_autonomous` ends.
use ai_agents_enterprise.Prelude.{
  ℕ, zero, suc, ◌+◌, ◌≤◌, String, ◌≡◌, ◌≢◌, refl, sym, ap, ◌∙◌, subst, Bool, true, false, Option,
  none, some, Option-cases, List, [], ◌∷◌, ◌++◌, length, length-append, All, All-append, inl, inr,
  ◌⊎◌, arith,
}
use ai_agents_enterprise.Runtime.Types.{AgentRun}
use ai_agents_enterprise.Runtime.Agent.{Finished, finished, no_provider}
use ai_agents_enterprise.Runtime.Context.Pairing.{Turned-cases}
use ai_agents_enterprise.Autonomous.Answers.{Plan, parse_plan, parse_reflection, max_plan_steps}
use ai_agents_enterprise.Autonomous.Answers.Plans.{parse_plan_bounds}
use ai_agents_enterprise.Autonomous.Engine.{
  Autonomy, Shared, Iteration, AutonomousResult, Outcome, done, no_model, type_error, Progress,
  Round, fault, went, plan_system, reflect_system, plan_prompt, reflect_prompt, advance, act,
  reflect, act_and_reflect, round, conclude, iterate_rounds, run_autonomous,
}

abbrev pub IsShort : Plan → Type 0
IsShort plan = (1 ≤ length plan.steps) × (length plan.steps ≤ max_plan_steps)

abbrev pub HasShortPlan : Iteration → Type 0
HasShortPlan i = IsShort i.plan

abbrev pub HasNotMet : Iteration → Type 0
HasNotMet i = i.reflection.goal_met ≡ false

-- One round adds one iteration, whose reflection decides.
abbrev Goes : Progress → Round → Type 0
Goes p (fault o) = (r : AutonomousResult) → o ≢ done r
Goes p (went met p') =
    (i : Iteration) × (p'.iterations ≡ p.iterations ++ i ∷ [])
    × (i.reflection.goal_met ≡ met)
    × HasShortPlan i

Finished-cases :
    {A : Type 0} (x : Finished A) → (x ≡ no_provider) ⊎ ((run : AgentRun A) × (x ≡ finished run))
Finished-cases no_provider = inl refl
Finished-cases (finished run) = inr (run, refl)

Round-cases :
    (r : Round)
    → ((o : Outcome) × (r ≡ fault o))
      ⊎ (((p : Progress) × (r ≡ went true p)) ⊎ ((p : Progress) × (r ≡ went false p)))
Round-cases (fault o) = inl (o, refl)
Round-cases (went true p) = inr (inl (p, refl))
Round-cases (went false p) = inr (inr (p, refl))

no_model_ne : (r : AutonomousResult) → no_model ≢ done r
no_model_ne r e = cc

type_error_ne : (r : AutonomousResult) → type_error ≢ done r
type_error_ne r e = cc

-- The end of the loop: within the cap; completed at the first reflection that says so, or open
-- after all rounds.
abbrev pub IsEnd : (most : ℕ) → List Iteration → (completed : Bool) → Type 0
IsEnd most is true =
    (before : List Iteration) × (last : Iteration) × (is ≡ before ++ last ∷ [])
    × (last.reflection.goal_met ≡ true)
    × All HasNotMet before
IsEnd most is false = (length is ≡ most) × All HasNotMet is

abbrev pub IsRun : (goal : String) → (most : ℕ) → Outcome → Type 0
IsRun goal most no_model = Unit
IsRun goal most type_error = Unit
IsRun goal most (done r) =
    (r.goal ≡ goal)
    × (length r.iterations ≤ most)
    × All HasShortPlan r.iterations
    × IsEnd most r.iterations r.completed

fault-IsRun :
    (goal : String) (most : ℕ) (o : Outcome)
    → ((r : AutonomousResult) → o ≢ done r)
    → IsRun goal most o
fault-IsRun goal most no_model h = tt
fault-IsRun goal most type_error h = tt
fault-IsRun goal most (done r) h = absurd (h r refl)

longer :
    (xs : List Iteration) (ys : List Iteration) (i : Iteration)
    → ys ≡ xs ++ i ∷ []
    → length ys ≡ suc (length xs)
longer xs ys i e = ap length e ∙ length-append xs (i ∷ []) ∙ omega arith

module _ {A I W : Type 0} (auto : Autonomy A I W) where
  reflect-Goes :
      (goal : String) (plan : Plan) (text : String) (costs : Option ℕ) (p : Progress) (s : Shared W)
      → IsShort plan
      → Goes p (reflect auto goal plan text costs p s).0
  unfolding reflect advance
  reflect-Goes goal plan text costs p s h =
      elim (Turned-cases
        (auto.think reflect_system (reflect_prompt goal s.memory text) s.world).0) [
          | inr e ↦ rw (reflect, e) no_model_ne
          | inl (o, e) ↦
              rw (reflect, e)
                (
                  record {
                    plan = plan;
                    actions = text;
                    reflection = parse_reflection auto.loads auto.str auto.strip o.text;
                  },
                  refl,
                  refl,
                  h,
                )
        ]

  act_and_reflect-Goes :
      (goal : String) (plan : Plan) (costs : Option ℕ) (p : Progress) (s : Shared W)
      → IsShort plan
      → Goes p (act_and_reflect auto goal plan costs p s).0
  unfolding act_and_reflect
  act_and_reflect-Goes goal plan costs p s h = elim (Finished-cases (act auto goal plan s).0) [
    | inl e ↦ rw (act_and_reflect, e) no_model_ne
    | inr (run, e) ↦ rw (act_and_reflect, e) (reflect-Goes goal plan run.final_text _ p _ h)
  ]

  round-Goes : (goal : String) (p : Progress) (s : Shared W) → Goes p (round auto goal p s).0
  unfolding round
  round-Goes goal p s =
      elim (Turned-cases (auto.think plan_system (plan_prompt goal p.focus) s.world).0) [
        | inr e ↦ rw (round, e) no_model_ne
        | inl (o, e) ↦ elim (Option-cases (parse_plan auto.loads auto.str auto.strip o.text goal)) [
          | inl n ↦ rw (round, e, n) type_error_ne
          | inr (plan, n) ↦
              rw (round, e, n)
                (act_and_reflect-Goes goal plan _ p _
                  (parse_plan_bounds auto.loads auto.str auto.strip o.text goal plan n))
        ]
      ]

  iterate_rounds-IsRun :
      (left : ℕ) (goal : String) (most : ℕ) (p : Progress) (s : Shared W)
      → length p.iterations + left ≡ most
      → All HasShortPlan p.iterations
      → All HasNotMet p.iterations
      → IsRun goal most (iterate_rounds auto left goal p s).0
  unfolding iterate_rounds conclude
  iterate_rounds-IsRun zero goal most p s n plans open_goal =
      (refl, omega arith, plans, (omega arith, open_goal))
  iterate_rounds-IsRun (suc left) goal most p s n plans open_goal =
      let h = round-Goes goal p s in
      elim (Round-cases (round auto goal p s).0) [
        | inl (o, e) ↦ rw (iterate_rounds, e) (fault-IsRun goal most o (rw e at h))
        | inr (inl (p', e)) ↦
            rw (iterate_rounds, e)
              (let (i, more, met, short) = rw e at h in
                (
                  refl,
                  omega (arith, longer _ _ _ more),
                  subst (All HasShortPlan) (sym more)
                      (All-append HasShortPlan p.iterations (i ∷ []) plans (short, tt)),
                  (p.iterations, i, more, met, open_goal),
                ))
        | inr (inr (p', e)) ↦
            rw (iterate_rounds, e)
              (let (i, more, met, short) = rw e at h in
                iterate_rounds-IsRun left goal most p' _ (omega (arith, longer _ _ _ more))
                  (subst (All HasShortPlan) (sym more)
                    (All-append HasShortPlan p.iterations (i ∷ []) plans (short, tt)))
                  (subst (All HasNotMet) (sym more)
                    (All-append HasNotMet p.iterations (i ∷ []) open_goal (met, tt))))
      ]

  -- `run_autonomous` ends after at most `max_iterations` rounds, whatever the models and the tools
  -- do. If it returns a result, every plan in it has one to six steps, and it is completed exactly
  -- at the first reflection that declares the goal met: that one is the last, and no earlier one
  -- did. A result that is not completed has run all rounds, and no reflection declared the goal
  -- met. Otherwise no provider answered, or the steps of a plan were not iterable.
  pub run_autonomous-IsRun :
      (goal : String) (max_iterations : ℕ) (w : W)
      → IsRun goal max_iterations (run_autonomous auto goal max_iterations w).0
  unfolding run_autonomous
  run_autonomous-IsRun goal max_iterations w =
      iterate_rounds-IsRun max_iterations goal max_iterations
        (record { iterations = []; cost = some 0; focus = none; final_answer = "" })
        (record { world = w; memory = [] }) (omega arith) tt tt
