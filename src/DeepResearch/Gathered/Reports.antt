-- ===== src/DeepResearch/Gathered/Reports.antt =====
-- The report on what the research gathers.
use ai_agents_enterprise.Prelude.{
  ℕ, ◌≤◌, String, ◌≡◌, refl, subst, ◌⊎◌, inl, inr, some_injective, none_ne_some, Option, none, some,
  List, [], ◌∷◌, length, length-take, Option-cases, arith,
}
use ai_agents_enterprise.Runtime.Types.{StepOutput, Turned, turned, unavailable}
use ai_agents_enterprise.DeepResearch.{
  ResearchReport, Found, nothing_found, Gateway, research, Researcher, parse_subquestions,
  report_prompt, write_report, research_and_report, run_research, max_subquestions, or_fallback,
  listed_questions,
}
use ai_agents_enterprise.Autonomous.Answers.{extract_json, object_in}
use ai_agents_enterprise.DeepResearch.Gathered.{Sound, research-Fits}

-- The sources of a report, against its trace of tool calls; an exception makes no report.
abbrev pub Grounded : Option ResearchReport → Type 0
Grounded none = Unit
Grounded (some r) =
    Sound r.tool_calls r.sources
    × (length r.sources ≤ 6)
    × (length r.sub_questions ≤ max_subquestions)

Turned-cases :
    {A : Type 0} (t : Turned A) → (t ≡ unavailable) ⊎ ((r : StepOutput A) × (t ≡ turned r))
Turned-cases unavailable = inl refl
Turned-cases (turned r) = inr (r, refl)

or_fallback_le :
    {A W : Type 0} (who : Researcher A W) (fallback : String) (qs : List String)
    → length (or_fallback who fallback qs) ≤ max_subquestions
or_fallback_le who fallback [] = omega arith
or_fallback_le who fallback (q ∷ qs) = omega (arith, length-take max_subquestions (q ∷ qs))

module _ {A W : Type 0} (who : Researcher A W) where
  open who use {clock}

  write_report-Grounded :
      (question : String) (sqs : List String) (cost : Option ℕ) (f : Found) (gw : Gateway clock)
      (w : W)
      → Sound gw.audit f.sources
      → length f.sources ≤ 6
      → length sqs ≤ max_subquestions
      → Grounded (write_report who question sqs cost f gw w).0
  unfolding write_report
  write_report-Grounded question sqs cost f gw w h few short =
      elim (Turned-cases (who.report_step (report_prompt who question f) w).0) [
        | inl n ↦ rw (write_report, n) tt
        | inr (r, n) ↦ rw (write_report, n) (h, few, short)
      ]

  research_and_report-Grounded :
      (allowlist : List String) (question : String) (sqs : List String) (cost : Option ℕ)
      (gw : Gateway clock) (w : W)
      → length sqs ≤ max_subquestions
      → Grounded (research_and_report who allowlist question sqs cost gw w).0
  unfolding research_and_report
  research_and_report-Grounded allowlist question sqs cost gw w short =
      let out = research clock allowlist sqs nothing_found gw w in
      let fits =
        research-Fits clock allowlist sqs nothing_found gw w
          (record { numbered = tt; distinct = tt; fetched = tt }) in
      elim (Option-cases out.0) [
        | inl n ↦ rw (research_and_report, n) tt
        | inr (f, n) ↦
            let (sound, few) = rw (n) at fits in
            rw (research_and_report, n)
              (write_report-Grounded question sqs cost f out.1 out.2 sound
                (omega (arith, few, short)) short)
      ]

  parse_subquestions_le :
      (answer fallback : String) (qs : List String)
      → parse_subquestions who answer fallback ≡ some qs
      → length qs ≤ max_subquestions
  unfolding parse_subquestions
  parse_subquestions_le answer fallback qs e =
      elim (Option-cases
        (listed_questions who (object_in (extract_json who.loads who.str who.strip answer)))) [
          | inl n ↦ absurd (none_ne_some (rw (parse_subquestions, n) at e))
          | inr (found, n) ↦
              subst (λ l. length l ≤ max_subquestions)
                (some_injective (rw (parse_subquestions, n) at e))
                (or_fallback_le who fallback found)
        ]

  -- However the models answer, and whatever the tools return, the sources of a report are numbered
  -- 1, 2, … in order, no URL stands twice among them, for each of them the report's trace of tool
  -- calls has a fetch of its URL that was permitted and did not fail, and there are at most six,
  -- two for each of at most three sub-questions.
  pub run_research-Grounded :
      (allowlist : Option (List String)) (question : String) (gw : Gateway clock) (w : W)
      → Grounded (run_research who allowlist question gw w).0
  unfolding run_research
  run_research-Grounded allowlist question gw w = elim (Turned-cases (who.plan_step question w).0) [
    | inl n ↦ rw (run_research, n) tt
    | inr (out, n) ↦ elim (Option-cases (parse_subquestions who out.text question)) [
      | inl m ↦ rw (run_research, n, m) tt
      | inr (qs, m) ↦
          rw (run_research, n, m)
            (research_and_report-Grounded _ question qs _ gw _
              (parse_subquestions_le out.text question qs m))
    ]
  ]
