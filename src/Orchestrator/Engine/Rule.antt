-- ===== src/Orchestrator/Engine/Rule.antt =====
-- An induction rule for the `while` loop of `_drive`: one case for each way a round can go.
use ai_agents_enterprise.Prelude.{
  ℕ, zero, suc, ◌+◌, ◌≤◌, ◌<◌, String, ◌≡◌, ◌⊎◌, refl, ap, Bool, true, false, Option, none, some,
  List, not, ◌&&◌, leb, arith, inl, inr, Bool-cases,
}
use ai_agents_enterprise.Orchestrator.Types.{
  Crash, other_error, Branch, chosen, threw, WorkflowRun, Step, WorkflowDef, Runtime, elem,
  step_named,
}
use ai_agents_enterprise.Orchestrator.Engine.{
  max_steps_per_run, Drive, finished, crashed, complete, exceed_budget, suspend, fail_step,
  count_step, try_step, next_step, Round, stop, continue, after_tries, run_step, visit, round,
  proceed, loop,
}
use ai_agents_enterprise.Orchestrator.Engine.Attempts.{Tried, try_step-Tried}

-- The gate of the step is open: it needs no approval, or it has one.
abbrev pub IsOpen : {V W : Type 0} → List String → Step V W → Type 0
IsOpen approved step = (step.requires_approval && not (elem step.name approved)) ≡ false

pub Branch-cases :
    (b : Branch) → ((next : Option String) × (b ≡ chosen next)) ⊎ ((why : Crash) × (b ≡ threw why))
Branch-cases (chosen next) = inl (next, refl)
Branch-cases (threw why) = inr (why, refl)

module _ {V W : Type 0} where
  -- What to show of an invariant `P` of the run between rounds, and of `Q` of the end.
  pub record LoopRule (wf : WorkflowDef V W) (approved : List String) (P : WorkflowRun V → Type 0)
      (Q : Drive V → Type 0) : Type 0 where
    pub done : (run : WorkflowRun V) → P run → Q (finished (complete run))
    pub over : (run : WorkflowRun V) → P run → Q (finished (complete (exceed_budget run)))
    pub lost : (why : Crash) (run : WorkflowRun V) → P run → Q (crashed why run)
    pub hold :
        (run : WorkflowRun V) (current : String) (step : Step V W)
        → step_named wf current ≡ some step
        → elem step.name approved ≡ false
        → P run
        → Q (finished (suspend step run))
    pub fail :
        (run run' : WorkflowRun V) (current : String) (step : Step V W) (w : W)
        → step_named wf current ≡ some step
        → IsOpen approved step
        → run.steps_executed < max_steps_per_run
        → Tried step 1 (count_step run) (false, run', w)
        → P run
        → Q (finished (complete (fail_step step run')))
    pub pass :
        (run run' : WorkflowRun V) (current : String) (step : Step V W) (w : W)
        → step_named wf current ≡ some step
        → IsOpen approved step
        → run.steps_executed < max_steps_per_run
        → Tried step 1 (count_step run) (true, run', w)
        → P run
        → P run'

  -- The outcome of one round: the end, or one more step counted.
  abbrev Goes : (WorkflowRun V → Type 0) → (Drive V → Type 0) → ℕ → Round V W → Type 0
  Goes P Q n (stop d w) = Q d
  Goes P Q n (continue run next w) = P run × (run.steps_executed ≡ n) × (n ≤ max_steps_per_run)

  module _ (rt : Runtime W) {wf : WorkflowDef V W} {approved : List String}
      {P : WorkflowRun V → Type 0} {Q : Drive V → Type 0} (rule : LoopRule wf approved P Q) where
    run_step-Goes :
        (run : WorkflowRun V) (current : String) (step : Step V W) (w : W)
        → step_named wf current ≡ some step
        → IsOpen approved step
        → run.steps_executed < max_steps_per_run
        → P run
        → Goes P Q (run.steps_executed + 1) (run_step rt step run w)
    unfolding run_step after_tries count_step
    run_step-Goes run current step w named is_open le p =
        go (try_step rt step step.max_attempts 1 (count_step run) w)
          (try_step-Tried rt step step.max_attempts 1 (count_step run) w (omega arith))
      where
        go :
            (result : Bool × WorkflowRun V × W)
            → Tried step 1 (count_step run) result
            → Goes P Q (run.steps_executed + 1) (after_tries step result.0 result.1 result.2)
        go (false, run', w') t = rule.fail run run' current step w' named is_open le t p
        go (true, run', w') t =
            let p' = rule.pass run run' current step w' named is_open le t p in
            elim (Branch-cases (next_step step.next run'.state)) [
              | inl (next, e) ↦
                  rw (after_tries, e)
                    (p', ap (λ (r : WorkflowRun V). r.steps_executed) t.frame, omega arith)
              | inr (why, e) ↦ rw (after_tries, e) (rule.lost why run' p')
            ]

    visit-Goes :
        (run : WorkflowRun V) (current : String) (found : Option (Step V W)) (w : W)
        → step_named wf current ≡ found
        → run.steps_executed < max_steps_per_run
        → P run
        → Goes P Q (run.steps_executed + 1) (visit rt approved found run w)
    unfolding visit
    visit-Goes run current none w named le p = rule.lost other_error run p
    visit-Goes run current (some step) w named le p =
        elim (Bool-cases (step.requires_approval && not (elem step.name approved))) [
          | inl shut ↦ rw shut (rule.hold run current step named (ground arith) p)
          | inr is_open ↦ rw is_open (run_step-Goes run current step w named is_open le p)
        ]

    round-Goes :
        (run : WorkflowRun V) (current : String) (w : W)
        → run.steps_executed ≤ max_steps_per_run
        → P run
        → Goes P Q (run.steps_executed + 1) (round rt wf approved current run w)
    unfolding round
    round-Goes run current w le p = elim (Bool-cases (leb max_steps_per_run run.steps_executed)) [
      | inl over ↦ rw over (rule.over run p)
      | inr under ↦
          rw under (visit-Goes run current (step_named wf current) w refl (ground arith) p)
    ]

    Goes-proceed :
        {n : ℕ} (rest : WorkflowRun V → Option String → W → Drive V × W) (r : Round V W)
        → Goes P Q n r
        → ((run : WorkflowRun V) (next : Option String) (w : W)
            → P run
            → run.steps_executed ≡ n
            → n ≤ max_steps_per_run
            → Q (rest run next w).0)
        → Q (proceed rest r).0
    Goes-proceed rest (stop d w) q f = q
    Goes-proceed rest (continue run next w) g f = f run next w g.0 g.1 g.2

    pub loop_ind :
        (fuel : ℕ) (run : WorkflowRun V) (current : Option String) (w : W)
        → max_steps_per_run < run.steps_executed + fuel
        → run.steps_executed ≤ max_steps_per_run
        → P run
        → Q (loop fuel rt wf approved run current w).0
    unfolding loop
    loop_ind zero run current w h le p = absurd (omega arith)
    loop_ind (suc fuel) run none w h le p = rule.done run p
    loop_ind (suc fuel) run (some current) w h le p =
        Goes-proceed (loop fuel rt wf approved) (round rt wf approved current run w)
          (round-Goes run current w le p)
          (λ run' next w' p' counted le'. loop_ind fuel run' next w' (omega arith) (omega arith) p')
