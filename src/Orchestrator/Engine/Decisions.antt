-- ===== src/Orchestrator/Engine/Decisions.antt =====
-- What the decisions of `resume` do: a rejection runs nothing, an approval runs the gate.
use ai_agents_enterprise.Prelude.{
  ℕ, ◌+◌, suc, ◌<◌, String, ◌≡◌, ◌≢◌, refl, ap, ◌∙◌, subst, Bool, true, false, Option, none, some,
  List, [], ◌∷◌, ◌++◌, append_assoc, append-nil, arith, any-append, not, ◌&&◌, ◌==◌, eq_refl, leb,
  ◌⊎◌, ◌↔◌, inl, inr, Option-cases,
}
use ai_agents_enterprise.Orchestrator.Types.{
  RunStatus, ApprovalDecision, ApprovalRecord, StepAttempt, rejected_by, WorkflowRun, Step,
  WorkflowDef, Runtime, step_named, elem,
}
use ai_agents_enterprise.Orchestrator.Engine.{
  max_steps_per_run, Drive, finished, crashed, out_of_fuel, complete, exceed_budget, suspend,
  fail_step, count_step, approved_steps, drive, loop, Resumed, approval_error, resumed, resume,
  decide_gate, log_decision, waiting_at, round, visit, run_step, try_step, next_step, after_tries,
  proceed,
}
use ai_agents_enterprise.Orchestrator.Engine.Attempts.{Tried, IsTried, try_step-Tried}
use ai_agents_enterprise.Orchestrator.Engine.Rule.{LoopRule, loop_ind, Branch-cases}
use ai_agents_enterprise.Orchestrator.Engine.Gates.{step_named-name, approved_steps-append}

single_approval :
    (a : ApprovalRecord)
    → a.decision ≡ ApprovalDecision.approved
    → elem a.step (approved_steps (a ∷ [])) ≡ true
unfolding approved_steps
single_approval a h = ground (arith, eq_refl a.step)

approved_after :
    (approvals : List ApprovalRecord) (a : ApprovalRecord)
    → a.decision ≡ ApprovalDecision.approved
    → elem a.step (approved_steps (approvals ++ a ∷ [])) ≡ true
approved_after approvals a h =
    rw (approved_steps-append approvals (a ∷ []))
      (any_right (approved_steps approvals) (approved_steps (a ∷ [])) (single_approval a h))
  where
    any_right : (xs ys : List String) → elem a.step ys ≡ true → elem a.step (xs ++ ys) ≡ true
    any_right xs ys e = ground (arith, any-append (λ n. n == a.step) xs ys)

module _ {V W : Type 0} (wf : WorkflowDef V W) where
  -- The log holds `base` and then, first of all, an attempt of step `gate`.
  abbrev Ran : List (StepAttempt V) → String → WorkflowRun V → Type 0
  Ran base gate run =
      (a : StepAttempt V) × (rest : List (StepAttempt V)) × (run.attempts ≡ base ++ a ∷ rest)
      × (a.step ≡ gate)

  abbrev pub EndsRan : List (StepAttempt V) → String → Drive V → Type 0
  EndsRan base gate (finished run) = Ran base gate run
  EndsRan base gate (crashed why run) = Ran base gate run
  EndsRan base gate out_of_fuel = ⊥

  abbrev pub ResumedRan : List (StepAttempt V) → String → Resumed V → Type 0
  ResumedRan base gate approval_error = ⊥
  ResumedRan base gate (resumed d) = EndsRan base gate d

  Tried-Ran :
      (base : List (StepAttempt V)) (gate : String) (run : WorkflowRun V) {step : Step V W}
      {ok : Bool} {run' : WorkflowRun V} {w : W}
      → Tried step 1 (count_step run) (ok, run', w)
      → Ran base gate run
      → Ran base gate run'
  unfolding count_step
  Tried-Ran base gate run t (a, rest, e, named) = (
    a,
    rest ++ t.new,
    t.appended ∙ ap (λ l. l ++ t.new) e ∙ append_assoc base (a ∷ rest) t.new,
    named,
  )

  Ran-LoopRule :
      (base : List (StepAttempt V)) (gate : String) (approved : List String)
      → LoopRule wf approved (Ran base gate) (EndsRan base gate)
  unfolding complete exceed_budget suspend fail_step
  Ran-LoopRule base gate approved = record {
    done = λ run p. p;
    over = λ run p. p;
    lost = λ why run p. p;
    hold = λ run current step named absent p. p;
    fail = λ run run' current step w named is_open le t p. Tried-Ran base gate run t p;
    pass = λ run run' current step w named is_open le t p. Tried-Ran base gate run t p;
  }

  -- The first round at an approved gate tries it.
  IsTried-first :
      (step : Step V W) (ok : Bool) (new : List (StepAttempt V))
      → 0 < step.max_attempts
      → IsTried step ok 1 new
      → (a : StepAttempt V) × (rest : List (StepAttempt V)) × (new ≡ a ∷ rest)
        × (a.step ≡ step.name)
  IsTried-first step ok [] h t = absurd (omega arith)
  IsTried-first step ok (a ∷ rest) h t = (a, rest, refl, t.0)

  Tried-Ran_first :
      (run : WorkflowRun V) {step : Step V W} {ok : Bool} {run' : WorkflowRun V} {w : W}
      → 0 < step.max_attempts
      → Tried step 1 (count_step run) (ok, run', w)
      → Ran run.attempts step.name run'
  unfolding count_step
  Tried-Ran_first run {step} {ok} h t =
      let (a, rest, e, named) = IsTried-first step ok t.new h t.tried in
      (a, rest, t.appended ∙ ap (λ l. run.attempts ++ l) e, named)

  not_refused :
      (d : Drive V) (w w' : W) → ◌≢◌ {A = Resumed V × W} (resumed d, w) (approval_error, w')
  not_refused d w w' e = cc

  module _ (rt : Runtime W) where
    run_step-Ran :
        (fuel : ℕ) (approved : List String) (step : Step V W) (run : WorkflowRun V) (w : W)
        → 0 < step.max_attempts
        → run.steps_executed < max_steps_per_run
        → max_steps_per_run < (run.steps_executed + 1) + fuel
        → EndsRan run.attempts step.name
            (proceed (loop fuel rt wf approved) (run_step rt step run w)).0
    unfolding run_step after_tries count_step complete fail_step
    run_step-Ran fuel approved step run w tries within enough =
        go (try_step rt step step.max_attempts 1 (count_step run) w)
          (try_step-Tried rt step step.max_attempts 1 (count_step run) w (omega arith))
      where
        go :
            (result : Bool × WorkflowRun V × W)
            → Tried step 1 (count_step run) result
            → EndsRan run.attempts step.name
                (proceed (loop fuel rt wf approved) (after_tries step result.0 result.1 result.2)).0
        go (false, run', w') t = Tried-Ran_first run tries t
        go (true, run', w') t =
            let counted = ap (λ (r : WorkflowRun V). r.steps_executed) t.frame in
            let ran = Tried-Ran_first run tries t in
            elim (Branch-cases (next_step step.next run'.state)) [
              | inl (next, e) ↦
                  rw (after_tries, e)
                    (loop_ind rt (Ran-LoopRule run.attempts step.name approved) fuel run' next w'
                      (omega arith) (omega arith) ran)
              | inr (why, e) ↦ rw (after_tries, e) ran
            ]

    round_at_gate :
        (approved : List String) (step : Step V W) (gate : String) (run : WorkflowRun V) (w : W)
        → step_named wf gate ≡ some step
        → elem gate approved ≡ true
        → run.steps_executed < max_steps_per_run
        → round rt wf approved gate run w ≡ run_step rt step run w
    unfolding round visit
    round_at_gate approved step gate run w named listed within =
        let under : leb max_steps_per_run run.steps_executed ≡ false = ground arith in
        let open_gate : (step.requires_approval && not (elem step.name approved)) ≡ false =
          rw (step_named-name wf gate step named) (rw listed (ground arith)) in
        rw under (rw (named, visit) (rw open_gate))

    approved_gate_runs :
        (fuel : ℕ) (approved : List String) (step : Step V W) (gate : String) (run : WorkflowRun V)
        (w : W)
        → step_named wf gate ≡ some step
        → elem gate approved ≡ true
        → 0 < step.max_attempts
        → run.steps_executed < max_steps_per_run
        → max_steps_per_run < (run.steps_executed + 1) + fuel
        → EndsRan run.attempts gate (loop (suc fuel) rt wf approved run (some gate) w).0
    unfolding loop
    approved_gate_runs fuel approved step gate run w named listed tries within enough =
        rw (round_at_gate approved step gate run w named listed within) (
          subst
            (λ g.
              EndsRan run.attempts g
                (proceed (loop fuel rt wf approved) (run_step rt step run w)).0)
            (step_named-name wf gate step named)
            (run_step-Ran fuel approved step run w tries within enough))

    waiting_at-eq_some :
        (run : WorkflowRun V) (gate : String)
        → run.status ≡ RunStatus.awaiting_approval
        → run.pending_step ≡ some gate
        → waiting_at run ≡ some gate
    unfolding waiting_at
    waiting_at-eq_some run gate waits pending = ground arith

    waiting_at-eq_none :
        (run : WorkflowRun V)
        → ((run.status ≢ RunStatus.awaiting_approval) ⊎ (run.pending_step ≡ none))
          ↔ (waiting_at run ≡ none)
    unfolding waiting_at
    waiting_at-eq_none run = (λ h. ground arith, λ h. ground arith)

    -- What a rejection leaves behind, and that it is final.
    pub record RejectedFor (run : WorkflowRun V) (gate actor : String) (reason : Option String)
        (w : W) (after : WorkflowRun V) : Type 0 where
      pub status : after.status ≡ RunStatus.rejected
      pub untouched :
          (after.state ≡ run.state)
          × (after.attempts ≡ run.attempts)
          × (after.steps_executed ≡ run.steps_executed)
      pub logged :
          (a : ApprovalRecord) × (after.approvals ≡ run.approvals ++ a ∷ [])
          × (a.step ≡ gate)
          × (a.decision ≡ ApprovalDecision.rejected)
          × (a.actor ≡ actor)
          × (a.reason ≡ reason)
          × (a.decided_at ≡ rt.utc_now w)
      pub grants : approved_steps after.approvals ≡ approved_steps run.approvals
      pub final :
          (decision : ApprovalDecision) (actor' : String) (reason' : Option String) (later : W)
          → resume rt wf after decision actor' reason' later ≡ (approval_error, later)

    approved_steps-rejected :
        (approvals : List ApprovalRecord) (a : ApprovalRecord)
        → a.decision ≡ ApprovalDecision.rejected
        → approved_steps (approvals ++ a ∷ []) ≡ approved_steps approvals
    approved_steps-rejected approvals a e =
        let nothing : approved_steps (a ∷ []) ≡ [] = unfold approved_steps in rw (e) in
        rw (approved_steps-append approvals (a ∷ []), nothing)
          (append-nil (approved_steps approvals))

    -- A rejection of a waiting run is final. The call returns the run and touches nothing in the
    -- world; the run is `rejected`, with the state, the attempts and the count of steps from
    -- before, no step is approved that was not before, the audit log has one more record with the
    -- gate, the decision, the actor, the reason and the time, and every later decision on it, an
    -- approval included, is refused and runs nothing.
    pub resume-rejected :
        (run : WorkflowRun V) (gate actor : String) (reason : Option String) (w : W)
        → run.status ≡ RunStatus.awaiting_approval
        → run.pending_step ≡ some gate
        → (after : WorkflowRun V) × (resume rt wf run ApprovalDecision.rejected actor reason w
            ≡ (resumed (finished after), w))
          × RejectedFor run gate actor reason w after
    unfolding resume decide_gate log_decision waiting_at
    resume-rejected run gate actor reason w waits pending = (
      record (log_decision rt gate ApprovalDecision.rejected actor reason w run) {
        status = RunStatus.rejected;
        error = some (rejected_by gate actor);
      },
      rw (waiting_at-eq_some run gate waits pending, resume),
      record {
        status = refl;
        untouched = (refl, refl, refl);
        logged = (_, refl, refl, refl, refl, refl, refl);
        grants = approved_steps-rejected run.approvals _ refl;
        final = λ decision actor' reason' later. refl;
      },
    )

    -- `resume` refuses a run exactly if it is not awaiting approval or names no pending step, and
    -- then calls nothing.
    pub resume-approval_error :
        (run : WorkflowRun V) (decision : ApprovalDecision) (actor : String)
        (reason : Option String) (w : W)
        → ((run.status ≢ RunStatus.awaiting_approval) ⊎ (run.pending_step ≡ none))
          ↔ (resume rt wf run decision actor reason w ≡ (approval_error, w))
    unfolding resume
    resume-approval_error run decision actor reason w = (
      λ h. rw ((waiting_at-eq_none run).0 h, resume),
      λ h. elim (Option-cases (waiting_at run)) [
        | inl e ↦ (waiting_at-eq_none run).1 e
        | inr (gate, e) ↦ absurd (not_refused _ _ _ (rw (e, resume) at h))
      ],
    )

    -- An approval takes effect at once: the gate's step is tried, as the first new attempt of the
    -- run, whatever ends the call. The step must be found, allow an attempt, and the budget have
    -- room.
    pub resume-approved :
        (run : WorkflowRun V) (gate actor : String) (reason : Option String) (w : W)
        (step : Step V W)
        → run.status ≡ RunStatus.awaiting_approval
        → run.pending_step ≡ some gate
        → step_named wf gate ≡ some step
        → 0 < step.max_attempts
        → run.steps_executed < max_steps_per_run
        → ResumedRan run.attempts gate (resume rt wf run ApprovalDecision.approved actor reason w).0
    unfolding resume decide_gate log_decision drive
    resume-approved run gate actor reason w step waits pending named tries within =
        rw (waiting_at-eq_some run gate waits pending, resume)
          (approved_gate_runs 25 _ step gate _ w named (approved_after run.approvals _ refl) tries
            within (omega arith))
