-- ===== src/Orchestrator/Registry.antt =====
-- workbench_orchestrator/registry.py: the workflows by name, and the cache of runs over the run
-- store. `P` is the type of stored payloads; `dump` and `model_validate` are pydantic's, and an
-- exception of the latter is `none`. The cache is the OrderedDict, the oldest entry first.
pub mod Persistence
pub mod Histories
pub mod Idempotency
mod Tests
use ai_agents_enterprise.Prelude.{
  ℕ, zero, suc, String, ◌≡◌, Bool, true, false, Option, none, some, List, [], ◌∷◌, ◌++◌, map,
  length, leb, ◌==◌, Dict, get, put, if◌then◌else◌,
}
use ai_agents_enterprise.RunStore.Database.{Database, ErrorText}
use ai_agents_enterprise.RunStore.Listings
use ai_agents_enterprise.RunStore.Operations.{
  RunRecord, get_run, get_run_by_idempotency_key, upsert_run,
}
use ai_agents_enterprise.Orchestrator.Types.{
  RunStatus, ApprovalDecision, Crash, missing_key, no_provider, other_error, WorkflowRun,
  WorkflowDef, Runtime,
}
use ai_agents_enterprise.Orchestrator.Engine.{
  Drive, finished, crashed, out_of_fuel, Resumed, approval_error, resumed, execute, resume,
}

abbrev pub max_stored_runs : ℕ
max_stored_runs = 200

-- The texts of `run.status`.
abbrev pub status_text : RunStatus → String
status_text RunStatus.running = "running"
status_text RunStatus.completed = "completed"
status_text RunStatus.failed = "failed"
status_text RunStatus.awaiting_approval = "awaiting_approval"
status_text RunStatus.rejected = "rejected"

pub record Codec (V P : Type 0) : Type 0 where
  pub dump : WorkflowRun V → P
  pub model_validate : P → Option (WorkflowRun V)
  pub model_validate-dump : (run : WorkflowRun V) → model_validate (dump run) ≡ some run

-- What a call raises: KeyError, ApprovalError, pydantic's ValidationError,
-- NoProviderAvailableError, or what else the engine lets through.
pub data Fault : Type 0 where
  key_error not_waiting invalid_payload unavailable engine_error : Fault

-- A branch function's exception leaves the engine as it is.
abbrev pub fault_of : Crash → Fault
fault_of missing_key = key_error
fault_of no_provider = unavailable
fault_of other_error = engine_error

pub data Reply (A : Type 0) : Type 0 where
  reply : A → Reply A
  raise : Fault → Reply A

-- `WORKFLOWS[workflow.name] = workflow`
unfoldable pub register :
    {V W : Type 0} → WorkflowDef V W → Dict (WorkflowDef V W) → Dict (WorkflowDef V W)
register wf workflows = put workflows wf.name wf

-- `list(reversed(...))`
abbrev pub backwards : {A : Type 0} → List A → List A
backwards [] = []
backwards (x ∷ xs) = backwards xs ++ x ∷ []

-- The `while` loop of `_store`: the oldest runs go until at most `max_stored_runs` are left.
unfoldable pub evict : {A : Type 0} → List A → List A
evict [] = []
evict (r ∷ rs) =
    let rest = evict rs in if leb (suc (length rs)) max_stored_runs then r ∷ rs else rest

-- One process: its cache, and the store that all share.
pub record Registry (V Store : Type 0) : Type 0 where
  pub cache : Dict (WorkflowRun V)
  pub store : Store

abbrev pub remember : {V Store : Type 0} → WorkflowRun V → Registry V Store → Registry V Store
remember run g = record g { cache = put g.cache run.id run }

module _ {V P : Type 0} (db : Database P) (codec : Codec V P) where
  open db use {Store}
  open codec use {dump, model_validate}

  unfoldable pub store_run :
      (now : ℕ)
      → WorkflowRun V
      → Option String
      → Registry V Store
      → WorkflowRun V × Registry V Store
  store_run now run key g =
      let (_, s) =
        upsert_run db now run.id "workflow" (status_text run.status) (dump run) key none g.store in
      (run, record { cache = evict (put g.cache run.id run); store = s })

  -- A record's run, which warms the cache.
  unfoldable pub rehydrate :
      RunRecord P → Registry V Store → Reply (WorkflowRun V) × Registry V Store
  rehydrate r g = elim (model_validate r.payload) [
    | none ↦ (raise invalid_payload, g)
    | some run ↦ (reply run, remember run g)
  ]

  -- `_load`: `reply none` is None.
  unfoldable pub load :
      String → Registry V Store → Option (Reply (WorkflowRun V)) × Registry V Store
  load run_id g = elim (get g.cache run_id) [
    | some run ↦ (some (reply run), g)
    | none ↦ elim (get_run db run_id g.store) [
      | none ↦ (none, g)
      | some r ↦ let (run, g') = rehydrate r g in (some run, g')
    ]
  ]

  -- The runs of the payloads; one that does not validate raises.
  abbrev pub validated : List (RunRecord P) → Reply (List (WorkflowRun V))
  validated [] = reply []
  validated (r ∷ rs) = elim (model_validate r.payload) [
    | none ↦ raise invalid_payload
    | some run ↦ elim (validated rs) [ raise fault ↦ raise fault | reply runs ↦ reply (run ∷ runs) ]
  ]

  -- The newest runs of the store, or of the cache where the store lists none.
  unfoldable pub list_runs : Registry V Store → Reply (List (WorkflowRun V))
  list_runs g = elim (Listings.list_runs db (some "workflow") max_stored_runs g.store) [
    | [] ↦ reply (backwards (map (λ e. e.1) g.cache))
    | r ∷ rs ↦ validated (r ∷ rs)
  ]

  module _ {W : Type 0} (rt : Runtime W) (clock : W → ℕ) (workflows : Dict (WorkflowDef V W)) where
    -- The end of an engine's call: a run is stored, an exception goes to the caller.
    unfoldable pub persist :
        Option String
        → Drive V
        → Registry V Store
        → W
        → Reply (WorkflowRun V) × Registry V Store × W
    persist key (finished run) g w =
        let (run', g') = store_run (clock w) run key g in (reply run', g', w)
    persist key (crashed why run) g w = (raise (fault_of why), g, w)
    persist key out_of_fuel g w = (raise engine_error, g, w)

    unfoldable pub launch :
        String
        → Dict V
        → Option String
        → Registry V Store
        → W
        → Reply (WorkflowRun V) × Registry V Store × W
    launch name input key g w = elim (get workflows name) [
      | none ↦ (raise key_error, g, w)
      | some wf ↦ let (d, w') = execute rt wf input w in persist key d g w'
    ]

    -- The run that an earlier call with the key has stored; no key and the empty one find none.
    unfoldable pub repeated : Option String → Registry V Store → Option (RunRecord P)
    repeated none g = none
    repeated (some key) g = get_run_by_idempotency_key db "workflow" key g.store

    unfoldable pub run_workflow :
        String
        → Dict V
        → Option String
        → Registry V Store
        → W
        → Reply (WorkflowRun V) × Registry V Store × W
    run_workflow name input key g w = elim (repeated key g) [
      | some r ↦ let (run, g') = rehydrate r g in (run, g', w)
      | none ↦ launch name input key g w
    ]

    -- The resumed run is the object in the cache, so that also a crash leaves it there as it was
    -- mutated.
    unfoldable pub persist_resumed :
        Resumed V → Registry V Store → W → Reply (WorkflowRun V) × Registry V Store × W
    persist_resumed approval_error g w = (raise not_waiting, g, w)
    persist_resumed (resumed (finished run)) g w = persist none (finished run) g w
    persist_resumed (resumed (crashed why run)) g w = (raise (fault_of why), remember run g, w)
    persist_resumed (resumed out_of_fuel) g w = (raise engine_error, g, w)

    unfoldable pub resume_loaded :
        WorkflowRun V
        → ApprovalDecision
        → (actor : String) → Option String
        → Registry V Store
        → W
        → Reply (WorkflowRun V) × Registry V Store × W
    resume_loaded run decision actor reason g w = elim (get workflows run.workflow) [
      | none ↦ (raise key_error, g, w)
      | some wf ↦ let (r, w') = resume rt wf run decision actor reason w in persist_resumed r g w'
    ]

    unfoldable pub resume_run :
        String
        → ApprovalDecision
        → (actor : String) → Option String
        → Registry V Store
        → W
        → Reply (WorkflowRun V) × Registry V Store × W
    resume_run run_id decision actor reason g w =
        let (found, g') = load run_id g in
        elim found [
          | none ↦ (raise key_error, g', w)
          | some (raise fault) ↦ (raise fault, g', w)
          | some (reply run) ↦ resume_loaded run decision actor reason g' w
        ]
