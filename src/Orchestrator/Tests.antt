-- ===== src/Orchestrator/Tests.antt =====
-- A small workflow with one approval gate: runs of it, and the engine's theorems at them. The world
-- is a number of milliseconds.
use ai_agents_enterprise.Prelude.{
  ℕ, ◌+◌, ◌≡◌, ◌≢◌, ◌↔◌, ◌⊎◌, refl, true, false, none, some, [], ◌∷◌, arith, nat_eq, if◌then◌else◌,
  put, update,
}
use ai_agents_enterprise.Orchestrator.Types.{
  StepStatus, RunStatus, ApprovalDecision, WorkflowRun, returned, raised, end, goto, Step,
  WorkflowDef, Runtime, step_named, entry, post_init, duplicate_names, unknown_next, approve_step,
}
use ai_agents_enterprise.Orchestrator.Engine.{
  finished, execute, resume, resumed, approval_error, try_step, drive, loop, round, visit, run_step,
  after_tries, count_step, complete, suspend, next_step, approved_steps, new_run, waiting_at,
  log_decision, decide_gate, fail_step, exceed_budget,
}
use ai_agents_enterprise.Orchestrator.Engine.Attempts.{Tried, try_step-Tried}
use ai_agents_enterprise.Orchestrator.Engine.Gates.{
  IsGated, EndsGated, ResumedGated, is_cleared, execute-IsGated, resume-IsGated,
}
use ai_agents_enterprise.Orchestrator.Engine.Ends.{
  IsSettled, EndsSettled, ResumedSettled, execute-EndsSettled, resume-EndsSettled,
}
use ai_agents_enterprise.Orchestrator.Engine.Decisions.{
  ResumedRan, RejectedFor, resume-rejected, resume-approval_error, resume-approved,
}

abbrev pub rt : Runtime ℕ
rt = record {
  new_id = λ w. ("r1", w);
  utc_now = λ w. "now";
  monotonic_ms = λ w. w;
  sleep = λ n w. w + n;
}

-- Fails on its first call, at time 0, and takes 2 ms.
abbrev pub check : Step ℕ ℕ
check = record {
  name = "check";
  run =
      λ state w. (if nat_eq w 0 then raised "timeout" else returned (some (("ok", 1) ∷ [])), w + 2);
  next = goto "grant";
  max_attempts = 2;
  retry_delay = 5;
  requires_approval = false;
  approval_prompt = none;
}

abbrev pub grant : Step ℕ ℕ
grant = record {
  name = "grant";
  run = λ state w. (returned none, w + 1);
  next = end;
  max_attempts = 1;
  retry_delay = 0;
  requires_approval = true;
  approval_prompt = some "";
}

abbrev pub access : WorkflowDef ℕ ℕ
access = record { name = "access"; description = "Access request"; steps = check ∷ grant ∷ [] }

abbrev pub paused : WorkflowRun ℕ
paused = record {
  id = "r1";
  workflow = "access";
  status = RunStatus.awaiting_approval;
  created_at = "now";
  state = ("ok", 1) ∷ [];
  attempts =
      record {
        step = "check";
        attempt = 1;
        status = StepStatus.retried;
        latency_ms = 2;
        error = some "timeout";
        updates = [];
      }
      ∷ record {
        step = "check";
        attempt = 2;
        status = StepStatus.succeeded;
        latency_ms = 2;
        error = none;
        updates = ("ok", 1) ∷ [];
      }
      ∷ [];
  approvals = [];
  pending_step = some "grant";
  approval_prompt = some (approve_step "grant");
  error = none;
  steps_executed = 1;
}

program : Unit {0}
unfolding execute resume drive loop round visit run_step after_tries count_step complete suspend
    try_step next_step approved_steps new_run waiting_at log_decision decide_gate fail_step
    exceed_budget step_named entry update put
program = tt

-- The retry waits 5 ms, and the run stops before the gate.
pub execute-access : execute rt access [] 0 ≡ (finished paused, 9)
unfolding program
execute-access = refl

access-is_accepted : post_init access ≡ none
unfolding post_init
access-is_accepted = refl

post_init_errors :
    (post_init (record access { steps = check ∷ check ∷ [] }) ≡ some duplicate_names)
    × (post_init (record access { steps = check ∷ [] }) ≡ some (unknown_next "check"))
unfolding post_init
post_init_errors = (refl, refl)

paused-IsGated : IsGated access paused
unfolding is_cleared step_named
paused-IsGated = (refl, (refl, tt))

paused-IsSettled : IsSettled paused
paused-IsSettled = record {
  at_rest = λ e. cc;
  paused = λ e. ("grant", refl);
  unpaused = λ e. absurd (e refl);
  within = omega arith;
  clean = λ e. (λ h. cc, (λ h. cc, tt));
  blamed = λ e. refl;
}

try_step-Tried_example : Tried check 1 paused (try_step rt check 2 1 paused 0)
try_step-Tried_example = try_step-Tried rt check 2 1 paused 0 refl

execute-IsGated_example : EndsGated access (execute rt access [] 0).0
execute-IsGated_example = execute-IsGated access rt [] 0

resume-IsGated_example :
    ResumedGated access (resume rt access paused ApprovalDecision.approved "ann" none 9).0
resume-IsGated_example =
    resume-IsGated access rt paused ApprovalDecision.approved "ann" none 9 (omega arith)
      paused-IsGated

execute-EndsSettled_example : EndsSettled (execute rt access [] 0).0
execute-EndsSettled_example = execute-EndsSettled access rt [] 0

resume-EndsSettled_example :
    ResumedSettled (resume rt access paused ApprovalDecision.approved "ann" none 9).0
resume-EndsSettled_example =
    resume-EndsSettled access rt paused ApprovalDecision.approved "ann" none 9 paused-IsSettled

resume-rejected_example :
    (after : WorkflowRun ℕ) × (resume rt access paused ApprovalDecision.rejected "ann" none 9
      ≡ (resumed (finished after), 9))
    × RejectedFor access rt paused "grant" "ann" none 9 after
resume-rejected_example = resume-rejected access rt paused "grant" "ann" none 9 refl refl

resume-approval_error_example :
    ((paused.status ≢ RunStatus.awaiting_approval) ⊎ (paused.pending_step ≡ none))
    ↔ (resume rt access paused ApprovalDecision.approved "ann" none 9 ≡ (approval_error, 9))
resume-approval_error_example =
    resume-approval_error access rt paused ApprovalDecision.approved "ann" none 9

resume-approved_example :
    ResumedRan access paused.attempts "grant"
      (resume rt access paused ApprovalDecision.approved "ann" none 9).0
resume-approved_example =
    resume-approved access rt paused "grant" "ann" none 9 grant refl refl
      (unfold step_named in refl) (omega arith) (omega arith)
