-- ===== src/Orchestrator/Engine/Ends.antt =====
-- How a call of `execute` or `resume` ends: the statuses of a run at rest, its budget, its log.
use ai_agents_enterprise.Prelude.{
  ◌≤◌, String, ◌≡◌, ◌≢◌, refl, ap, ◌∙◌, Option, none, some, List, Dict, arith, All, All-append, ◌⊎◌,
  inl, inr, Option-cases,
}
use ai_agents_enterprise.Orchestrator.Types.{
  RunStatus, ApprovalDecision, RunError, WorkflowRun, WorkflowDef, Runtime, entry,
}
use ai_agents_enterprise.Orchestrator.Engine.{
  max_steps_per_run, Drive, finished, crashed, out_of_fuel, complete, exceed_budget, suspend,
  fail_step, count_step, approved_steps, drive, Resumed, approval_error, resumed, resume, execute,
  new_run, decide_gate, log_decision, waiting_at, drive_fuel,
}
use ai_agents_enterprise.Orchestrator.Engine.Attempts.{HasNotFailed, IsTried-HasNotFailed}
use ai_agents_enterprise.Orchestrator.Engine.Rule.{LoopRule, loop_ind}

module _ {V : Type 0} where
  -- A run that a call has returned: it does not run, it waits at a gate exactly in the status for
  -- that, its budget holds, and a failed attempt or an error stands only in a run that ended badly.
  pub record IsSettled (run : WorkflowRun V) : Type 0 where
    pub at_rest : run.status ≢ RunStatus.running
    pub paused :
        run.status ≡ RunStatus.awaiting_approval → (gate : String) × (run.pending_step ≡ some gate)
    pub unpaused : run.status ≢ RunStatus.awaiting_approval → run.pending_step ≡ none
    pub within : run.steps_executed ≤ max_steps_per_run
    pub clean : run.status ≢ RunStatus.failed → All HasNotFailed run.attempts
    pub blamed :
        (run.status ≡ RunStatus.completed) ⊎ (run.status ≡ RunStatus.awaiting_approval)
        → run.error ≡ none

  -- A run between two rounds of the loop.
  record IsGoing (run : WorkflowRun V) : Type 0 where
    running : run.status ≡ RunStatus.running
    unpaused : run.pending_step ≡ none
    within : run.steps_executed ≤ max_steps_per_run
    clean : All HasNotFailed run.attempts
    unblamed : run.error ≡ none

  abbrev pub EndsSettled : Drive V → Type 0
  EndsSettled (finished run) = IsSettled run
  EndsSettled (crashed why run) = run.steps_executed ≤ max_steps_per_run
  EndsSettled out_of_fuel = ⊥

  abbrev pub ResumedSettled : Resumed V → Type 0
  ResumedSettled approval_error = Unit
  ResumedSettled (resumed d) = EndsSettled d

  complete-IsSettled : (run : WorkflowRun V) → IsGoing run → IsSettled (complete run)
  unfolding complete
  complete-IsSettled run g =
      rw (g.running, complete)
        (record {
          at_rest = λ e. cc;
          paused = λ e. cc;
          unpaused = λ e. g.unpaused;
          within = g.within;
          clean = λ e. g.clean;
          blamed = λ e. g.unblamed;
        })

  failed-IsSettled :
      (run : WorkflowRun V) (error : RunError)
      → run.pending_step ≡ none
      → run.steps_executed ≤ max_steps_per_run
      → IsSettled (complete (record run { status = RunStatus.failed; error = some error }))
  unfolding complete
  failed-IsSettled run error unpaused within = record {
    at_rest = λ e. cc;
    paused = λ e. cc;
    unpaused = λ e. unpaused;
    within = within;
    clean = λ e. absurd (e refl);
    blamed = λ e. elim e [ inl c ↦ cc | inr c ↦ cc ];
  }

module _ {V W : Type 0} (wf : WorkflowDef V W) where
  settle_rule : (approved : List String) → LoopRule wf approved IsGoing EndsSettled
  unfolding exceed_budget suspend fail_step count_step
  settle_rule approved = record {
    done = λ run p. complete-IsSettled run p;
    over = λ run p. failed-IsSettled run _ p.unpaused p.within;
    lost = λ why run p. p.within;
    hold = λ run current step named absent p. record {
      at_rest = λ e. cc;
      paused = λ e. (step.name, refl);
      unpaused = λ e. absurd (e refl);
      within = p.within;
      clean = λ e. p.clean;
      blamed = λ e. p.unblamed;
    };
    fail = λ run run' current step w named is_open le t p.
        failed-IsSettled run' _ (ap (λ (r : WorkflowRun V). r.pending_step) t.frame ∙ p.unpaused)
          (omega (arith, ap (λ (r : WorkflowRun V). r.steps_executed) t.frame));
    pass = λ run run' current step w named is_open le t p. record {
      running = ap (λ (r : WorkflowRun V). r.status) t.frame ∙ p.running;
      unpaused = ap (λ (r : WorkflowRun V). r.pending_step) t.frame ∙ p.unpaused;
      within = omega (arith, ap (λ (r : WorkflowRun V). r.steps_executed) t.frame);
      clean =
          rw t.appended
            (All-append _ run.attempts t.new p.clean (IsTried-HasNotFailed step 1 t.new t.tried));
      unblamed = ap (λ (r : WorkflowRun V). r.error) t.frame ∙ p.unblamed;
    };
  }

  module _ (rt : Runtime W) where
    drive-EndsSettled :
        (run : WorkflowRun V) (current : Option String) (w : W)
        → IsGoing run
        → EndsSettled (drive rt wf run current w).0
    unfolding drive
    drive-EndsSettled run current w g =
        loop_ind rt (settle_rule (approved_steps run.approvals)) drive_fuel run current w
          (omega arith) g.within g

    -- A call of `execute` ends within the fuel. A run that it returns is not `running`; it has a
    -- pending step exactly if it is `awaiting_approval`; it has executed at most 25 steps; it has
    -- an attempt of status `failed` only if it is itself `failed`, and no error if it is completed
    -- or waiting. After an exception the budget of 25 holds too.
    pub execute-EndsSettled : (input : Dict V) (w : W) → EndsSettled (execute rt wf input w).0
    unfolding execute new_run
    execute-EndsSettled input w = elim (Option-cases (entry wf)) [
      | inl e ↦ rw (e, execute) (omega arith)
      | inr (first, e) ↦
          rw (e, execute)
            (drive-EndsSettled (new_run rt wf input (rt.new_id w).0 (rt.new_id w).1) (some first)
              (rt.new_id w).1
              (record {
                running = refl;
                unpaused = refl;
                within = omega arith;
                clean = tt;
                unblamed = refl;
              }))
    ]

    waiting_at-some :
        (run : WorkflowRun V) (gate : String)
        → waiting_at run ≡ some gate
        → (run.status ≡ RunStatus.awaiting_approval) × (run.pending_step ≡ some gate)
    unfolding waiting_at
    waiting_at-some run gate e = ground arith

    -- Resuming a run that a call has returned gives such a run again (or ApprovalError, or, after
    -- an exception, a run within its budget), for either decision, within the fuel.
    pub resume-EndsSettled :
        (run : WorkflowRun V) (decision : ApprovalDecision) (actor : String)
        (reason : Option String) (w : W)
        → IsSettled run
        → ResumedSettled (resume rt wf run decision actor reason w).0
    unfolding resume decide_gate log_decision
    resume-EndsSettled run decision actor reason w s = elim (Option-cases (waiting_at run)) [
      | inl e ↦ rw (e, resume) tt
      | inr (gate, e) ↦ rw (e, resume) (go gate (waiting_at-some run gate e).0 decision)
    ]
      where
        logged : String → ApprovalDecision → WorkflowRun V
        logged gate d = log_decision rt gate d actor reason w run

        not_failed : run.status ≡ RunStatus.awaiting_approval → run.status ≢ RunStatus.failed
        not_failed waits e = cc

        go :
            (gate : String)
            → run.status ≡ RunStatus.awaiting_approval
            → (d : ApprovalDecision)
            → EndsSettled (decide_gate rt wf gate d actor (logged gate d) w).0
        go gate waits ApprovalDecision.approved = drive-EndsSettled _ (some gate) w (record {
          running = refl;
          unpaused = refl;
          within = s.within;
          clean = s.clean (not_failed waits);
          unblamed = s.blamed (inr waits);
        })
        go gate waits ApprovalDecision.rejected = record {
          at_rest = λ e. cc;
          paused = λ e. cc;
          unpaused = λ e. refl;
          within = s.within;
          clean = λ e. s.clean (not_failed waits);
          blamed = λ e. elim e [ inl c ↦ cc | inr c ↦ cc ];
        }
