-- ===== src/Orchestrator/Registry/Tests.antt =====
-- The access workflow behind the registry and the endpoints, over a table in memory that holds runs
-- as they are.
use ai_agents_enterprise.Prelude.{ℕ, ◌≡◌, refl, none, some, List, [], ◌∷◌, Dict, get, put}
use ai_agents_enterprise.RunStore.Database.{Database, AgentRun}
use ai_agents_enterprise.RunStore.Operations.{
  to_record, session_get, get_run_by_idempotency_key, upsert_run,
}
use ai_agents_enterprise.RunStore.Memory.{table_of, answers_selects}
use ai_agents_enterprise.Orchestrator.Tests.{rt, access, paused, execute-access}
use ai_agents_enterprise.Orchestrator.Types.{WorkflowRun, WorkflowDef, ApprovalDecision}
use ai_agents_enterprise.Orchestrator.Registry.{
  Codec, Registry, reply, evict, store_run, run_workflow,
}
use ai_agents_enterprise.Orchestrator.Registry.Idempotency.{run_row, run_workflow-repeated}
use ai_agents_enterprise.Orchestrator.Registry.Histories.{at_once, newer}
use ai_agents_enterprise.Orchestrator.Api.{decide}
use ai_agents_enterprise.Orchestrator.Api.Decided.{Decided, decide-Decided}

abbrev Run : Type 0
Run = WorkflowRun ℕ

abbrev table : Database Run
table = table_of Run

abbrev codec : Codec ℕ Run
codec = record { dump = λ r. r; model_validate = λ r. some r; model_validate-dump = λ r. refl }

abbrev workflows : Dict (WorkflowDef ℕ ℕ)
workflows = ("access", access) ∷ []

abbrev fresh : Registry ℕ (List (AgentRun Run))
fresh = record { cache = []; store = [] }

abbrev clock : ℕ → ℕ
clock w = w

-- The run is stored again, as after a decision.
abbrev decided : Registry ℕ (List (AgentRun Run))
decided =
    (store_run table codec 20 paused none
      (record { cache = []; store = run_row table codec rt clock workflows 9 paused "k1" ∷ [] })).1

run_workflow-repeated_example :
    (run_workflow table codec rt clock workflows "access" [] (some "k1") fresh 0 ≡ (
      reply paused,
      record {
        cache = evict (put [] "r1" paused);
        store = run_row table codec rt clock workflows 9 paused "k1" ∷ [];
      },
      9,
    ))
    × (run_workflow table codec rt clock workflows "other" []
          (some "k1")
          (record { cache = []; store = decided.store })
          70
        ≡ (reply paused, record { cache = put [] "r1" paused; store = decided.store }, 70))
run_workflow-repeated_example =
    run_workflow-repeated table codec rt clock workflows "access" "other" "k1" access [] [] paused
      fresh [] 0 9 70 (run_row table codec rt clock workflows 9 paused "k1" ∷ []) decided.store
      paused (answers_selects Run) refl (unfold get_run_by_idempotency_key in refl)
      (unfold get in refl) execute-access refl refl
      (newer
        (record { cache = []; store = run_row table codec rt clock workflows 9 paused "k1" ∷ [] })
        paused paused 20
        (to_record
          (record (run_row table codec rt clock workflows 9 paused "k1") { updated_at = 20 }))
        at_once refl (unfold upsert_run session_get in refl))

decide-Decided_example :
    Decided table codec rt clock workflows
      (λ r w. w)
      "token"
      "r1"
      (some "guess")
      fresh
      0
      (decide table codec rt clock workflows
        (λ r w. w)
        "token"
        "r1"
        ApprovalDecision.approved
        "mallory"
        none
        (some "guess")
        fresh
        0)
decide-Decided_example =
    decide-Decided table codec rt clock workflows (λ r w. w) "token" "r1" ApprovalDecision.approved
      "mallory" none (some "guess") fresh 0
