-- ===== src/RunStore/Operations.antt =====
-- The functions of runs.py. Each takes the time of its `_utc_now()` and the store, and returns the
-- store with its result; a failed transaction leaves the store as it was.
use mathlib.Core.Option
use ai_agents_enterprise.Prelude.{
  ℕ, ◌-◌, ◌*◌, String, Bool, true, Option, none, some, List, [], ◌∷◌, ◌==◌, ◌&&◌, ◌||◌, ltb, nat_eq,
  if◌then◌else◌,
}
use ai_agents_enterprise.RunStore.Database.{
  AgentRun, Answer, ok, integrity_error, failure, Database, same_key, ErrorText, no_heartbeat,
}

-- `timedelta(seconds=n)` in microseconds.
abbrev pub seconds : ℕ → ℕ
seconds n = n * 1000000

-- schema.py
pub record RunRecord (P : Type 0) : Type 0 where
  pub run_id : String
  pub kind : String
  pub status : String
  pub payload : P
  pub idempotency_key : Option String
  pub error : Option ErrorText
  pub created_at : ℕ
  pub updated_at : ℕ

-- How `create_run` ends: a record, or the IntegrityError that it raises again.
pub data Created (P : Type 0) : Type 0 where
  created : RunRecord P → Created P
  reraised : Created P

module _ {P : Type 0} where
  unfoldable pub to_record : AgentRun P → RunRecord P
  to_record row = record {
    run_id = row.id;
    kind = row.kind;
    status = row.status;
    payload = row.payload;
    idempotency_key = row.idempotency_key;
    error = row.error;
    created_at = row.created_at;
    updated_at = row.updated_at;
  }

  abbrev pub head : List (AgentRun P) → Option (AgentRun P)
  head [] = none
  head (r ∷ rs) = some r

  -- `pending`, or `running` with a heartbeat older than the cutoff.
  unfoldable pub claimable : (cutoff : ℕ) → AgentRun P → Bool
  claimable cutoff r = r.status == "pending" || r.status == "running" && ltb r.updated_at cutoff

  unfoldable pub stuck : (cutoff : ℕ) → AgentRun P → Bool
  stuck cutoff r = r.status == "running" && ltb r.updated_at cutoff

  unfoldable pub is_nonterminal : AgentRun P → Bool
  is_nonterminal r = r.status == "pending" || r.status == "running"

module _ {P : Type 0} (db : Database P) where
  open db use {Store, select, insert, save, update_where}

  -- `session.get(AgentRun, run_id)`
  unfoldable pub session_get : String → Store → Answer (Option (AgentRun P))
  session_get run_id s = elim (select (λ r. r.id == run_id) s) [
    | ok found ↦ ok (head found)
    | integrity_error ↦ integrity_error
    | failure ↦ failure
  ]

  unfoldable pub get_run : String → Store → Option (RunRecord P)
  get_run run_id s = elim (session_get run_id s) [ ok (some row) ↦ some (to_record row) | _ ↦ none ]

  unfoldable pub get_run_by_idempotency_key : String → String → Store → Option (RunRecord P)
  get_run_by_idempotency_key kind key s =
      if key == ""
      then none
      else elim (select (λ r. r.kind == kind && same_key r.idempotency_key (some key)) s) [
        | ok found ↦ Option.map to_record (head found)
        | _ ↦ none
      ]

  -- `row.idempotency_key` is only written if a key is given.
  abbrev pub new_key : Option String → Option String → Option String
  new_key none old = old
  new_key (some key) old = some key

  -- The commit of `upsert_run`: every exception is logged and swallowed.
  abbrev pub committed : AgentRun P → Answer Store → Store → Option (RunRecord P) × Store
  committed row (ok s') s = (some (to_record row), s')
  committed row _ s = (none, s)

  unfoldable pub upsert_run :
      (now : ℕ) (run_id kind status : String) (payload : P) (key : Option String)
      (error : Option ErrorText)
      → Store
      → Option (RunRecord P) × Store
  upsert_run now run_id kind status payload key error s = elim (session_get run_id s) [
    | ok none ↦
        let row : AgentRun P = record {
          id = run_id;
          kind = kind;
          status = status;
          idempotency_key = key;
          payload = payload;
          error = error;
          created_at = now;
          updated_at = now;
        } in
        committed row (insert row s) s
    | ok (some old) ↦
        let row : AgentRun P = record old {
          status = status;
          payload = payload;
          error = error;
          updated_at = now;
          idempotency_key = new_key key old.idempotency_key;
        } in
        committed row (save row s) s
    | _ ↦ (none, s)
  ]

  -- After an IntegrityError: the run of the same key, else the run of the same id, else the error.
  unfoldable pub existing_run : String → String → Option String → Store → Created P
  existing_run run_id kind key s =
      let by_id : Created P = elim (get_run run_id s) [ some r ↦ created r | none ↦ reraised ] in
      elim key [
        | none ↦ by_id
        | some k ↦ elim (get_run_by_idempotency_key kind k s) [ some r ↦ created r | none ↦ by_id ]
      ]

  unfoldable pub create_run :
      (now : ℕ) (run_id kind status : String) (payload : P) (key : Option String)
      → Store
      → Created P × Store
  create_run now run_id kind status payload key s =
      let row : AgentRun P = record {
        id = run_id;
        kind = kind;
        status = status;
        idempotency_key = key;
        payload = payload;
        error = none;
        created_at = now;
        updated_at = now;
      } in
      elim (insert row s) [
        | ok s' ↦ (created (to_record row), s')
        | integrity_error ↦ (existing_run run_id kind key s, s)
        | failure ↦ (created (to_record row), s)
      ]

  -- One conditional UPDATE; a store error fails open.
  unfoldable pub claim_run : (now : ℕ) (run_id : String) (lease : ℕ) → Store → Bool × Store
  claim_run now run_id lease s =
      elim (update_where (λ r. r.id == run_id && claimable (now - seconds lease) r)
        (λ r. record r { status = "running"; updated_at = now }) s) [
          | ok (n, s') ↦ (nat_eq n 1, s')
          | _ ↦ (true, s)
        ]

  unfoldable pub touch_run : (now : ℕ) (run_id : String) → Store → Store
  touch_run now run_id s = elim (session_get run_id s) [
    | ok (some row) ↦ elim (save (record row { updated_at = now }) s) [ ok s' ↦ s' | _ ↦ s ]
    | _ ↦ s
  ]

  unfoldable pub sweep_stuck_runs : (now ttl : ℕ) → Store → ℕ × Store
  sweep_stuck_runs now ttl s =
      elim (update_where (stuck (now - seconds ttl))
        (λ r. record r { status = "failed"; error = some (no_heartbeat ttl); updated_at = now })
        s) [ ok (n, s') ↦ (n, s') | _ ↦ (0, s) ]
