-- ===== src/Orchestrator/Engine.antt =====
-- workbench_orchestrator/engine.py: `execute`, `resume` and `_drive`. The run is passed along; what
-- the source mutates in place comes back with the result, also when an exception ends the call.
pub mod Attempts
pub mod Rule
pub mod Gates
pub mod Ends
pub mod Decisions
use ai_agents_enterprise.Prelude.{
  ℕ, zero, suc, ◌+◌, ◌-◌, String, Bool, true, false, Option, none, some, List, [], ◌∷◌, ◌++◌, Dict,
  update, map, keep, or_else, ◌==◌, ◌&&◌, ◌||◌, not, any, leb, nat_eq, if◌then◌else◌,
}
use ai_agents_enterprise.Orchestrator.Types.{
  StepStatus, RunStatus, ApprovalDecision, StepAttempt, ApprovalRecord, budget_exceeded,
  step_failed, rejected_by, Prompt, custom, approve_step, WorkflowRun, Outcome, returned, raised,
  Crash, other_error, Branch, chosen, threw, Next, end, goto, branch, Step, WorkflowDef, Runtime,
  elem, step_named, entry,
}

abbrev pub max_steps_per_run : ℕ
max_steps_per_run = 25

-- How a call of `_drive` ends: the returned run, or an exception with the run as it was mutated.
pub data Drive (V : Type 0) : Type 0 where
  finished : WorkflowRun V → Drive V
  crashed : Crash → WorkflowRun V → Drive V
  out_of_fuel : Drive V

-- The run that a call leaves behind.
abbrev pub run_of : {V : Type 0} → WorkflowRun V → Drive V → WorkflowRun V
run_of r (finished r') = r'
run_of r (crashed why r') = r'
run_of r out_of_fuel = r

abbrev pub is_approval : ApprovalRecord → Bool
is_approval a = elim a.decision [
  | ApprovalDecision.approved ↦ true
  | ApprovalDecision.rejected ↦ false
]

-- `{a.step for a in run.approvals if a.decision == "approved"}`
unfoldable pub approved_steps : List ApprovalRecord → List String
approved_steps approvals = map (λ a. a.step) (keep is_approval approvals)

-- One round of the `while` loop: the call ends, or the loop goes on at another step.
pub data Round (V W : Type 0) : Type 0 where
  stop : Drive V → W → Round V W
  continue : WorkflowRun V → Option String → W → Round V W

-- `resume`: ApprovalError, or the outcome of the rest.
pub data Resumed (V : Type 0) : Type 0 where
  approval_error : Resumed V
  resumed : Drive V → Resumed V

-- One round more than the budget has steps.
abbrev pub drive_fuel : ℕ
drive_fuel = 26

module _ {V : Type 0} where
  -- `step.next(run.state) if callable(step.next) else step.next`
  unfoldable pub next_step : Next V → Dict V → Branch
  next_step end state = chosen none
  next_step (goto n) state = chosen (some n)
  next_step (branch f) state = f state

  -- `if run.status == "running": run.status = "completed"`
  unfoldable pub complete : WorkflowRun V → WorkflowRun V
  complete run = record run {
    status = elim run.status [ RunStatus.running ↦ RunStatus.completed | other ↦ other ];
  }

  unfoldable pub exceed_budget : WorkflowRun V → WorkflowRun V
  exceed_budget run = record run { status = RunStatus.failed; error = some budget_exceeded }

  unfoldable pub count_step : WorkflowRun V → WorkflowRun V
  count_step run = record run { steps_executed = run.steps_executed + 1 }

  -- The gate that a run waits at, if `resume` accepts it.
  unfoldable pub waiting_at : WorkflowRun V → Option String
  waiting_at run = elim run.status [ RunStatus.awaiting_approval ↦ run.pending_step | _ ↦ none ]

module _ {V W : Type 0} where
  unfoldable pub log_failure : Step V W → ℕ → ℕ → String → WorkflowRun V → WorkflowRun V
  log_failure step attempt latency error run = record run {
    attempts =
        run.attempts
        ++ record {
          step = step.name;
          attempt = attempt;
          status =
              if nat_eq attempt step.max_attempts then StepStatus.failed else StepStatus.retried;
          latency_ms = latency;
          error = some error;
          updates = [];
        }
          ∷ [];
  }

  unfoldable pub log_success : Step V W → ℕ → ℕ → Dict V → WorkflowRun V → WorkflowRun V
  log_success step attempt latency updates run = record run {
    state = update run.state updates;
    attempts =
        run.attempts
        ++ record {
          step = step.name;
          attempt = attempt;
          status = StepStatus.succeeded;
          latency_ms = latency;
          error = none;
          updates = updates;
        }
          ∷ [];
  }

  unfoldable pub pause : Runtime W → Step V W → ℕ → W → W
  pause rt step attempt w =
      if not (nat_eq attempt step.max_attempts) && not (nat_eq step.retry_delay 0)
      then rt.sleep step.retry_delay w
      else w

  -- `for attempt in range(1, step.max_attempts + 1)`: `left` rounds from `attempt` on. The first
  -- part of the result is `succeeded`.
  unfoldable pub try_step :
      Runtime W → Step V W → (left attempt : ℕ) → WorkflowRun V → W → Bool × WorkflowRun V × W
  unfolding log_failure log_success pause
  try_step rt step zero attempt run w = (false, run, w)
  try_step rt step (suc left) attempt run w =
      let (outcome, w') = step.run run.state w in
      let latency = rt.monotonic_ms w' - rt.monotonic_ms w in
      elim outcome [
        | returned updates ↦ (true, log_success step attempt latency (or_else updates []) run, w')
        | raised error ↦
            try_step rt step left (suc attempt) (log_failure step attempt latency error run)
              (pause rt step attempt w')
      ]

  -- `step.approval_prompt or f"Approve step '{step.name}'?"`; the empty text counts as absent.
  unfoldable pub prompt_for : Step V W → Prompt
  prompt_for step = elim step.approval_prompt [
    | none ↦ approve_step step.name
    | some text ↦ if text == "" then approve_step step.name else custom text
  ]

  unfoldable pub suspend : Step V W → WorkflowRun V → WorkflowRun V
  unfolding prompt_for
  suspend step run = record run {
    status = RunStatus.awaiting_approval;
    pending_step = some step.name;
    approval_prompt = some (prompt_for step);
  }

  unfoldable pub fail_step : Step V W → WorkflowRun V → WorkflowRun V
  fail_step step run = record run {
    status = RunStatus.failed;
    error = some (step_failed step.name step.max_attempts);
  }

  unfoldable pub after_tries : Step V W → Bool → WorkflowRun V → W → Round V W
  unfolding fail_step complete next_step
  after_tries step true run w = elim (next_step step.next run.state) [
    | chosen next ↦ continue run next w
    | threw why ↦ stop (crashed why run) w
  ]
  after_tries step false run w = stop (finished (complete (fail_step step run))) w

  unfoldable pub run_step : Runtime W → Step V W → WorkflowRun V → W → Round V W
  run_step rt step run w =
      let (ok, run', w') = try_step rt step step.max_attempts 1 (count_step run) w in
      after_tries step ok run' w'

  unfoldable pub visit : Runtime W → List String → Option (Step V W) → WorkflowRun V → W → Round V W
  visit rt approved none run w = stop (crashed other_error run) w
  visit rt approved (some step) run w =
      if step.requires_approval && not (elem step.name approved)
      then stop (finished (suspend step run)) w
      else run_step rt step run w

  unfoldable pub round :
      Runtime W → WorkflowDef V W → List String → String → WorkflowRun V → W → Round V W
  round rt wf approved current run w =
      if leb max_steps_per_run run.steps_executed
      then stop (finished (complete (exceed_budget run))) w
      else visit rt approved (step_named wf current) run w

  -- The end of the call, or the rest of the loop.
  abbrev pub proceed : (WorkflowRun V → Option String → W → Drive V × W) → Round V W → Drive V × W
  proceed rest (stop d w) = (d, w)
  proceed rest (continue run next w) = rest run next w

  -- The `while` loop of `_drive`, each round on one unit of fuel.
  unfoldable pub loop :
      ℕ
      → Runtime W
      → WorkflowDef V W
      → List String
      → WorkflowRun V
      → Option String
      → W
      → Drive V × W
  loop zero rt wf approved run current w = (out_of_fuel, w)
  loop (suc fuel) rt wf approved run none w = (finished (complete run), w)
  loop (suc fuel) rt wf approved run (some current) w =
      proceed (loop fuel rt wf approved) (round rt wf approved current run w)

  unfoldable pub drive :
      Runtime W → WorkflowDef V W → WorkflowRun V → Option String → W → Drive V × W
  drive rt wf run current w = loop drive_fuel rt wf (approved_steps run.approvals) run current w

  unfoldable pub new_run : Runtime W → WorkflowDef V W → Dict V → String → W → WorkflowRun V
  new_run rt wf input id w = record {
    id = id;
    workflow = wf.name;
    status = RunStatus.running;
    created_at = rt.utc_now w;
    state = input;
    attempts = [];
    approvals = [];
    pending_step = none;
    approval_prompt = none;
    error = none;
    steps_executed = 0;
  }

  -- `workflow.entry` raises IndexError on an empty list of steps.
  unfoldable pub execute : Runtime W → WorkflowDef V W → Dict V → W → Drive V × W
  execute rt wf input w =
      let (id, w') = rt.new_id w in
      let run = new_run rt wf input id w' in
      elim (entry wf) [
        | none ↦ (crashed other_error run, w')
        | some first ↦ drive rt wf run (some first) w'
      ]

  unfoldable pub log_decision :
      Runtime W
      → String
      → ApprovalDecision
      → String
      → Option String
      → W
      → WorkflowRun V
      → WorkflowRun V
  log_decision rt gate decision actor reason w run = record run {
    approvals =
        run.approvals
        ++ record {
          step = gate;
          decision = decision;
          actor = actor;
          reason = reason;
          decided_at = rt.utc_now w;
        }
          ∷ [];
    pending_step = none;
    approval_prompt = none;
  }

  unfoldable pub decide_gate :
      Runtime W
      → WorkflowDef V W
      → String
      → ApprovalDecision
      → String
      → WorkflowRun V
      → W
      → Drive V × W
  decide_gate rt wf gate ApprovalDecision.rejected actor run w = (
    finished (record run { status = RunStatus.rejected; error = some (rejected_by gate actor) }),
    w,
  )
  decide_gate rt wf gate ApprovalDecision.approved actor run w =
      drive rt wf (record run { status = RunStatus.running }) (some gate) w

  unfoldable pub resume :
      Runtime W
      → WorkflowDef V W
      → WorkflowRun V
      → ApprovalDecision
      → String
      → Option String
      → W
      → Resumed V × W
  resume rt wf run decision actor reason w = elim (waiting_at run) [
    | none ↦ (approval_error, w)
    | some gate ↦
        let (d, w') =
          decide_gate rt wf gate decision actor (log_decision rt gate decision actor reason w run)
            w in
        (resumed d, w')
  ]
