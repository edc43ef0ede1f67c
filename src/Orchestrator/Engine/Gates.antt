-- ===== src/Orchestrator/Engine/Gates.antt =====
-- The approval gates: a gated step is tried only with an approval in the audit log.
use ai_agents_enterprise.Prelude.{
  ◌≤◌, String, ◌≡◌, refl, ap, ◌∙◌, Bool, true, false, Option, none, some, List, ◌++◌, Dict,
  any-append, not, ◌&&◌, ◌==◌, eq_iff, arith, All, All-append, All-imp, find-eq_some, inl, inr,
  Option-cases, keep-append,
}
use mathlib.Core.List.{map-append}
use ai_agents_enterprise.Orchestrator.Types.{
  ApprovalDecision, ApprovalRecord, StepAttempt, WorkflowRun, Step, WorkflowDef, Runtime, elem,
  step_named, entry,
}
use ai_agents_enterprise.Orchestrator.Engine.{
  max_steps_per_run, Drive, finished, crashed, out_of_fuel, complete, exceed_budget, suspend,
  fail_step, count_step, approved_steps, drive, Resumed, approval_error, resumed, resume, execute,
  new_run, decide_gate, log_decision, waiting_at, drive_fuel,
}
use ai_agents_enterprise.Orchestrator.Engine.Attempts.{Tried, IsTried-named}
use ai_agents_enterprise.Orchestrator.Engine.Rule.{IsOpen, LoopRule, loop_ind}

pub approved_steps-append :
    (xs ys : List ApprovalRecord)
    → approved_steps (xs ++ ys) ≡ approved_steps xs ++ approved_steps ys
unfolding approved_steps
approved_steps-append xs ys = rw keep-append (rw map-append)

abbrev pub cleared_by : {V W : Type 0} → List String → Option (Step V W) → Bool
cleared_by approved none = true
cleared_by approved (some s) = not (s.requires_approval && not (elem s.name approved))

module _ {V W : Type 0} (wf : WorkflowDef V W) where
  -- The step of this name, if there is one, needs no approval or has one among `approved`.
  unfoldable pub is_cleared : List String → String → Bool
  is_cleared approved name = cleared_by approved (step_named wf name)

  -- Every attempt in the run's log is of a step that is cleared by the run's own audit log.
  abbrev pub IsGated : WorkflowRun V → Type 0
  IsGated run = All (λ a. is_cleared (approved_steps run.approvals) a.step ≡ true) run.attempts

  pub step_named-name :
      (current : String) (step : Step V W) → step_named wf current ≡ some step → step.name ≡ current
  unfolding step_named
  step_named-name current step h =
      (eq_iff step.name current).0 (find-eq_some (λ s. s.name == current) wf.steps step h)

  IsOpen-is_cleared :
      (approved : List String) (current : String) (step : Step V W)
      → step_named wf current ≡ some step
      → IsOpen approved step
      → is_cleared approved step.name ≡ true
  unfolding is_cleared
  IsOpen-is_cleared approved current step named is_open =
      rw (step_named-name current step named) (rw (named, is_cleared) (rw is_open))

  abbrev AllCleared : List String → List (StepAttempt V) → Type 0
  AllCleared approved = All (λ a. is_cleared approved a.step ≡ true)

  Tried-AllCleared :
      (approved : List String) (current : String) (step : Step V W) (ok : Bool)
      (run run' : WorkflowRun V) (w : W)
      → step_named wf current ≡ some step
      → IsOpen approved step
      → Tried step 1 (count_step run) (ok, run', w)
      → AllCleared approved run.attempts
      → AllCleared approved run'.attempts
  unfolding count_step
  Tried-AllCleared approved current step ok run run' w named is_open t old = rw t.appended (
      All-append _ run.attempts t.new old (
        All-imp _ _ (λ a e. rw e (IsOpen-is_cleared approved current step named is_open)) t.new
          (IsTried-named step ok 1 t.new t.tried)))

  -- The run keeps the audit log that it came with, and all its attempts are cleared by it.
  record Inv (approvals : List ApprovalRecord) (run : WorkflowRun V) : Type 0 where
    same : run.approvals ≡ approvals
    cleared : AllCleared (approved_steps approvals) run.attempts

  Inv-IsGated :
      (approvals : List ApprovalRecord) (run : WorkflowRun V) → Inv approvals run → IsGated run
  Inv-IsGated approvals run i = rw i.same i.cleared

  -- What a call leaves behind is gated, also when it ends in an exception.
  abbrev pub EndsGated : Drive V → Type 0
  EndsGated (finished run) = IsGated run
  EndsGated (crashed why run) = IsGated run
  EndsGated out_of_fuel = ⊥

  complete-IsGated : (run : WorkflowRun V) → IsGated run → IsGated (complete run)
  unfolding complete
  complete-IsGated run g = g

  gate_rule :
      (approvals : List ApprovalRecord)
      → LoopRule wf (approved_steps approvals) (Inv approvals) EndsGated
  unfolding exceed_budget suspend fail_step count_step
  gate_rule approvals = record {
    done = λ run p. complete-IsGated run (Inv-IsGated approvals run p);
    over = λ run p. complete-IsGated _ (Inv-IsGated approvals run p);
    lost = λ why run p. Inv-IsGated approvals run p;
    hold = λ run current step named absent p. Inv-IsGated approvals run p;
    fail = λ run run' current step w named is_open le t p.
        complete-IsGated _
          (Inv-IsGated approvals run' (keeps run run' current step false w named is_open t p));
    pass = λ run run' current step w named is_open le t p.
        keeps run run' current step true w named is_open t p;
  }
    where
      keeps :
          (run run' : WorkflowRun V) (current : String) (step : Step V W) (ok : Bool) (w : W)
          → step_named wf current ≡ some step
          → IsOpen (approved_steps approvals) step
          → Tried step 1 (count_step run) (ok, run', w)
          → Inv approvals run
          → Inv approvals run'
      keeps run run' current step ok w named is_open t p = record {
        same = ap (λ (r : WorkflowRun V). r.approvals) t.frame ∙ p.same;
        cleared =
            Tried-AllCleared (approved_steps approvals) current step ok run run' w named is_open t
              p.cleared;
      }

  abbrev pub ResumedGated : Resumed V → Type 0
  ResumedGated approval_error = Unit
  ResumedGated (resumed d) = EndsGated d

  is_cleared-append :
      (xs ys : List ApprovalRecord) (name : String)
      → is_cleared (approved_steps xs) name ≡ true
      → is_cleared (approved_steps (xs ++ ys)) name ≡ true
  unfolding is_cleared
  is_cleared-append xs ys name h = rw approved_steps-append (go (step_named wf name) h)
    where
      go :
          (found : Option (Step V W))
          → cleared_by (approved_steps xs) found ≡ true
          → cleared_by (approved_steps xs ++ approved_steps ys) found ≡ true
      go none e = refl
      go (some s) e =
          ground (arith, any-append (λ n. n == s.name) (approved_steps xs) (approved_steps ys))

  module _ (rt : Runtime W) where
    drive-EndsGated :
        (run : WorkflowRun V) (current : Option String) (w : W)
        → run.steps_executed ≤ max_steps_per_run
        → IsGated run
        → EndsGated (drive rt wf run current w).0
    unfolding drive
    drive-EndsGated run current w within g =
        loop_ind rt (gate_rule run.approvals) drive_fuel run current w (omega arith) within
          (record { same = refl; cleared = g })

    -- Whatever the step functions return and wherever the call stops, also in an exception, each
    -- attempt that a call of `execute` has logged is of a step that requires no approval or that
    -- the run's audit log shows as approved; and the call ends within the fuel.
    pub execute-IsGated : (input : Dict V) (w : W) → EndsGated (execute rt wf input w).0
    unfolding execute new_run
    execute-IsGated input w = elim (Option-cases (entry wf)) [
      | inl e ↦ rw (e, execute) tt
      | inr (first, e) ↦
          rw (e, execute)
            (drive-EndsGated (new_run rt wf input (rt.new_id w).0 (rt.new_id w).1) (some first)
              (rt.new_id w).1 (omega arith) tt)
    ]

    -- `resume` keeps the gates: on a run whose logged attempts are all of steps that require no
    -- approval or are approved in its audit log, with at most 25 steps executed, this still holds
    -- of the run it leaves, for each decision and also after an exception, unless `resume` refuses;
    -- and the call ends within the fuel.
    pub resume-IsGated :
        (run : WorkflowRun V) (decision : ApprovalDecision) (actor : String)
        (reason : Option String) (w : W)
        → run.steps_executed ≤ max_steps_per_run
        → IsGated run
        → ResumedGated (resume rt wf run decision actor reason w).0
    unfolding resume decide_gate log_decision
    resume-IsGated run decision actor reason w within g = elim (Option-cases (waiting_at run)) [
      | inl e ↦ rw (e, resume) tt
      | inr (gate, e) ↦ rw (e, resume) (go gate decision)
    ]
      where
        logged : WorkflowRun V → String → ApprovalDecision → WorkflowRun V
        logged run gate decision = log_decision rt gate decision actor reason w run

        still : (gate : String) (d : ApprovalDecision) → IsGated (logged run gate d)
        still gate d = All-imp _ _ (λ a. is_cleared-append run.approvals _ a.step) run.attempts g

        go :
            (gate : String) (d : ApprovalDecision)
            → EndsGated (decide_gate rt wf gate d actor (logged run gate d) w).0
        go gate ApprovalDecision.approved =
            drive-EndsGated _ (some gate) w within (still gate ApprovalDecision.approved)
        go gate ApprovalDecision.rejected = still gate ApprovalDecision.rejected
