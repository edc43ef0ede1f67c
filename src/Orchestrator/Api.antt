-- ===== src/Orchestrator/Api.antt =====
-- workbench_orchestrator/api.py: the endpoints of the workflows. `record_run` is the best-effort
-- trace of a run. An exception that no endpoint catches is a server error. Tokens are ASCII texts.
pub mod Decided
use ai_agents_enterprise.Prelude.{
  ℕ, String, Bool, true, false, not, ◌&&◌, Option, none, some, is_some, List, [], ◌∷◌, or_else,
  ◌==◌, Dict, get, map, if◌then◌else◌,
}
use ai_agents_enterprise.RunStore.Database.{Database}
use ai_agents_enterprise.Orchestrator.Types.{
  ApprovalDecision, WorkflowRun, WorkflowDef, Runtime, approval_gates, names,
}
use ai_agents_enterprise.Orchestrator.Registry.{
  Codec, Registry, Reply, reply, raise, Fault, key_error, not_waiting, invalid_payload, unavailable,
  engine_error, load, list_runs, run_workflow, resume_run,
}

pub data Status : Type 0 where
  unauthorized not_found conflict service_unavailable server_error : Status

pub data Response (A : Type 0) : Type 0 where
  accepted : A → Response A
  refused : Status → Response A

pub record WorkflowInfo : Type 0 where
  pub name : String
  pub description : String
  pub steps : List String
  pub gates : List String

unfoldable pub workflow_info : {V W : Type 0} → WorkflowDef V W → WorkflowInfo
workflow_info wf = record {
  name = wf.name;
  description = wf.description;
  steps = names wf.steps;
  gates = approval_gates wf;
}

-- `_check_approval_token`; the empty setting leaves the endpoints open, and an absent header is an
-- empty one.
unfoldable pub is_authorized : (required : String) → (provided : Option String) → Bool
is_authorized required provided = if required == "" then true else or_else provided "" == required

-- What `_decide` makes of an exception.
abbrev pub status_of : Fault → Status
status_of key_error = not_found
status_of not_waiting = conflict
status_of unavailable = service_unavailable
status_of invalid_payload = server_error
status_of engine_error = server_error

-- What `run` makes of an exception of a known workflow.
abbrev pub run_status_of : Fault → Status
run_status_of unavailable = service_unavailable
run_status_of _ = server_error

abbrev pub Result : (V Store W : Type 0) → Type 0
Result V Store W = Response (WorkflowRun V) × Registry V Store × W

-- What `_decide` answers: a resumed run is traced.
unfoldable pub answer_decision :
    {V Store W : Type 0}
    → (WorkflowRun V → W → W)
    → Reply (WorkflowRun V) × Registry V Store × W
    → Result V Store W
answer_decision record_run (reply resumed, g, w) = (accepted resumed, g, record_run resumed w)
answer_decision record_run (raise fault, g, w) = (refused (status_of fault), g, w)

module _ {V W P : Type 0} (db : Database P) (codec : Codec V P) (rt : Runtime W) (clock : W → ℕ)
    (workflows : Dict (WorkflowDef V W)) (record_run : WorkflowRun V → W → W) where
  open db use {Store}

  unfoldable pub list_workflows : List WorkflowInfo
  list_workflows = map (λ e. workflow_info (e.1)) workflows

  -- `list_runs`; a stored payload that is no run is a server error.
  unfoldable pub list_workflow_runs : Registry V Store → Response (List (WorkflowRun V))
  list_workflow_runs g = elim (list_runs db codec g) [
    | reply runs ↦ accepted runs
    | raise fault ↦ refused server_error
  ]

  unfoldable pub get_workflow_run :
      String → Registry V Store → Response (WorkflowRun V) × Registry V Store
  get_workflow_run run_id g =
      let (found, g') = load db codec run_id g in
      elim found [
        | none ↦ (refused not_found, g')
        | some (reply run) ↦ (accepted run, g')
        | some (raise fault) ↦ (refused server_error, g')
      ]

  unfoldable pub run :
      (name : String)
      → Dict V
      → (idempotency_key : Option String) → Registry V Store
      → W
      → Result V Store W
  run name input key g w =
      let (r, g', w') = run_workflow db codec rt clock workflows name input key g w in
      if is_some (get workflows name)
      then elim r [
        | reply wf_run ↦ (accepted wf_run, g', record_run wf_run w')
        | raise fault ↦ (refused (run_status_of fault), g', w')
      ]
      else (refused not_found, g, w)

  unfoldable pub decide :
      (approval_token : String)
      → String
      → ApprovalDecision
      → (actor : String) → (reason token : Option String) → Registry V Store
      → W
      → Result V Store W
  decide approval_token run_id decision actor reason token g w =
      if is_authorized approval_token token
      then answer_decision record_run
          (resume_run db codec rt clock workflows run_id decision actor reason g w)
      else (refused unauthorized, g, w)
