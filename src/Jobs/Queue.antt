-- ===== src/Jobs/Queue.antt =====
-- `RedisQueue`, `dispatch` and the handler registry of queue.py, and `reconcile_runs`. `W` is the
-- world that handlers act on; what a handler raises is logged and swallowed.
use mathlib.Core.Option
use ai_agents_enterprise.Prelude.{
  ℕ, zero, suc, ◌+◌, String, Bool, Option, none, some, List, [], ◌∷◌, ltb, length, if◌then◌else◌,
  Dict, get, put,
}
use ai_agents_enterprise.Jobs.Redis.{jobs, processing, dead, Job, Redis, new_job}
use ai_agents_enterprise.RunStore.Database.{Database}
use ai_agents_enterprise.RunStore.Operations.{RunRecord}
use ai_agents_enterprise.RunStore.Listings.{list_nonterminal_runs}

abbrev pub max_attempts : ℕ
max_attempts = 5

-- The outcome of an awaited handler: whether it returned, and the world after it.
abbrev pub Handler : Type 0 → Type 0 → Type 0
Handler P W = String → P → W → Bool × W

-- What `reclaim` does with one orphan: it is put on the job list, or on the dead-letter list.
pub data Route (R : Type 0) : Type 0 where
  requeue : R → Route R
  bury : R → Route R

abbrev pub is_requeued : {R : Type 0} → Route R → ℕ
is_requeued (requeue raw) = 1
is_requeued (bury raw) = 0

-- The `job.attempts += 1` of `reclaim`.
abbrev pub bump : {P : Type 0} → Job P → Job P
bump job = record job { attempts = job.attempts + 1 }

module _ {P W : Type 0} where
  unfoldable pub register_handler : String → Handler P W → Dict (Handler P W) → Dict (Handler P W)
  register_handler kind handler handlers = put handlers kind handler

  unfoldable pub dispatch : Dict (Handler P W) → Job P → W → W
  dispatch handlers job w = elim (get handlers job.kind) [
    | none ↦ w
    | some handler ↦ (handler job.run_id job.payload w).1
  ]

module _ {R P : Type 0} (redis : Redis R P) where
  open redis use {Server, items, lpush, rpush, lpop, blmove, lrem, dump, validate}

  unfoldable pub enqueue : Job P → Server → Server
  enqueue job s = lpush jobs (dump job) s

  unfoldable pub route_job : Job P → Route R
  route_job job =
      if ltb max_attempts (bump job).attempts
      then bury (dump (bump job))
      else requeue (dump (bump job))

  unfoldable pub route : R → Route R
  unfolding route_job
  route raw = elim (validate raw) [ none ↦ bury raw | some job ↦ route_job job ]

  abbrev pub deliver : Route R → Server → Server
  deliver (requeue raw) s = rpush jobs raw s
  deliver (bury raw) s = rpush dead raw s

  -- The loop of `reclaim`: `none` means that the fuel ran out.
  unfoldable pub reclaim_loop : (fuel moved : ℕ) → Server → Option (ℕ × Server)
  reclaim_loop zero moved s = none
  reclaim_loop (suc fuel) moved s = elim (lpop processing s) [
    | none ↦ some (moved, s)
    | some (raw, s') ↦ reclaim_loop fuel (moved + is_requeued (route raw)) (deliver (route raw) s')
  ]

  -- One round for each orphan, and one that finds the list empty.
  unfoldable pub reclaim : Server → Option (ℕ × Server)
  unfolding reclaim_loop
  reclaim s = reclaim_loop (suc (length (items s processing))) 0 s

  unfoldable pub dead_letter_count : Server → ℕ
  dead_letter_count s = length (items s dead)

  module _ {W : Type 0} where
    -- `_process`, behind the pop: run the handler and acknowledge; a malformed message is dropped.
    unfoldable pub process : Dict (Handler P W) → R → Server → W → Server × W
    process handlers raw s w = elim (validate raw) [
      | none ↦ (lrem processing raw s, w)
      | some job ↦ (lrem processing raw s, dispatch handlers job w)
    ]

    -- One round of `consume_forever` whose task runs before the next pop.
    unfoldable pub consume_one : Dict (Handler P W) → Server → W → Server × W
    consume_one handlers s w = elim (blmove jobs processing s) [
      | none ↦ (s, w)
      | some (raw, s') ↦ process handlers raw s' w
    ]

    -- The loop of `reconcile_runs`: the count is `none` when a run's kind or identifier is no job's
    -- and the ValidationError ends the loop.
    unfoldable pub enqueue_runs :
        Dict (Handler P W) → List (RunRecord P) → Server → Option ℕ × Server
    enqueue_runs handlers [] s = (some 0, s)
    enqueue_runs handlers (r ∷ runs) s = elim (get handlers r.kind) [
      | none ↦ enqueue_runs handlers runs s
      | some h ↦ elim (new_job r.kind r.run_id r.payload) [
        | none ↦ (none, s)
        | some job ↦
            let (n, s') = enqueue_runs handlers runs (enqueue job s) in (Option.map suc n, s')
      ]
    ]

    -- `reconcile_runs`, with the default limit of `list_nonterminal_runs`.
    unfoldable pub reconcile_runs :
        (db : Database P) → Dict (Handler P W) → db.Store → Server → Option ℕ × Server
    unfolding enqueue_runs
    reconcile_runs db handlers store s =
        enqueue_runs handlers (list_nonterminal_runs db 1000 store) s
