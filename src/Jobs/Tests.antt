-- ===== src/Jobs/Tests.antt =====
-- The theorems on the queue at a server in memory.
use ai_agents_enterprise.Prelude.{
  ℕ, ◌+◌, ◌≡◌, refl, true, false, none, some, List, [], ◌∷◌, ◌++◌, nat_eq, arith, Dict, get, put,
}
use ai_agents_enterprise.Jobs.Redis.{jobs, processing, dead, Job, Redis, codes, is_job, new_job}
use ai_agents_enterprise.Jobs.Memory
use ai_agents_enterprise.Jobs.Memory.{Raw, redis_of, moved_to}
use ai_agents_enterprise.Jobs.Queue.{
  Handler, register_handler, enqueue, enqueue_runs, consume_one, reconcile_runs, reclaim,
}
use ai_agents_enterprise.Jobs.Reclaim.{Reclaimed, reclaim-Reclaimed}
use ai_agents_enterprise.Jobs.Worker.{handled, consume_one-acknowledged}
use ai_agents_enterprise.Jobs.Reconcile.{Reconciled, reconcile_runs-Reconciled}
use ai_agents_enterprise.RunStore.Database.{AgentRun, Database}
use ai_agents_enterprise.RunStore.Memory.{table_of, answers_selects}
use ai_agents_enterprise.RunStore.Operations.{to_record, is_nonterminal}
use ai_agents_enterprise.RunStore.Creation.{new_row}
use ai_agents_enterprise.RunStore.Listings.{list_nonterminal_runs}

abbrev Lists : Type 0
Lists = Memory.Lists ℕ

nat_eq_same : (n : ℕ) → nat_eq n n ≡ true
nat_eq_same n = ground arith

abbrev redis : Redis (Raw ℕ) ℕ
redis = redis_of nat_eq nat_eq_same

-- Counts the runs that the handler drove.
abbrev counting : Handler ℕ ℕ
counting run_id payload w = (false, w + payload)

abbrev job : ℕ → Job ℕ
job attempts = record { kind = "workflow"; run_id = "r1"; payload = 7; attempts = attempts }

abbrev orphaned : Lists
orphaned processing = some (job 0) ∷ none ∷ some (job 5) ∷ []
orphaned jobs = some (job 2) ∷ []
orphaned dead = []

abbrev handlers : Dict (Handler ℕ ℕ)
handlers = register_handler "workflow" counting []

reclaim-Reclaimed_example :
    (moved : ℕ) × (s : Lists) × (reclaim redis orphaned ≡ some (moved, s))
    × Reclaimed redis orphaned moved s
reclaim-Reclaimed_example = reclaim-Reclaimed redis orphaned

consume_one-acknowledged_example :
    (rest : List (Raw ℕ)) × (t : Lists) × (consume_one redis handlers orphaned 1
      ≡ (t, handled redis handlers (some (job 2)) 1))
    × (orphaned jobs ≡ rest ++ some (job 2) ∷ [])
    × (t jobs ≡ rest)
    × (t processing ≡ orphaned processing)
    × (t dead ≡ orphaned dead)
consume_one-acknowledged_example =
    consume_one-acknowledged redis handlers orphaned
      (moved_to jobs processing [] (some (job 2)) orphaned) 1 (some (job 2)) refl

abbrev table : Database ℕ
table = table_of ℕ

-- Three runs are not over: one of a kind without a handler, and one whose identifier is no job's.
abbrev stored : List (AgentRun ℕ)
stored =
    new_row 0 "r1" "workflow" "pending" 3 none
    ∷ new_row 1 "r2" "eval" "running" 4 none
    ∷ new_row 2 "r 3" "workflow" "running" 5 none
    ∷ new_row 3 "r4" "workflow" "completed" 6 none
    ∷ []

reconcile_runs-Reconciled_example :
    Reconciled redis handlers table stored orphaned
      (list_nonterminal_runs table 1000 stored)
      (reconcile_runs redis table handlers stored orphaned)
reconcile_runs-Reconciled_example =
    reconcile_runs-Reconciled redis handlers table stored orphaned (answers_selects ℕ)

reconcile_stored : (reconcile_runs redis table handlers stored orphaned).0 ≡ none
unfolding reconcile_runs enqueue_runs list_nonterminal_runs is_nonterminal to_record
    register_handler enqueue new_job is_job codes get put
reconcile_stored = refl

valid_names : is_job "workflow_2" "Run-7_x" ≡ true
unfolding is_job codes
valid_names = refl

invalid_kind : is_job "Workflow" "r1" ≡ false
unfolding is_job codes
invalid_kind = refl
