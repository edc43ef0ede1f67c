-- ===== src/RunStore/Creation.antt =====
-- `create_run` and the key that makes a submission idempotent; the sweep of stuck runs.
use mathlib.Core.Option
use ai_agents_enterprise.Prelude.{
  ℕ, ◌-◌, String, ◌≡◌, refl, ap, ◌∙◌, Bool, true, false, Option, none, some, List, [], ◌∷◌, ◌++◌,
  keep, find, any, ltb, ◌+◌, ◌*◌, Bool-cases, inl, inr, ◌==◌, eq_iff, eq_refl, ◌&&◌, if◌then◌else◌,
  arith,
}
use ai_agents_enterprise.RunStore.Database.{
  AgentRun, ok, integrity_error, Database, with_id, count, same_key, clashes, no_heartbeat,
}
use ai_agents_enterprise.RunStore.Operations.{
  RunRecord, created, reraised, to_record, session_get, get_run, get_run_by_idempotency_key,
  existing_run, create_run, stuck, seconds, sweep_stuck_runs,
}
use ai_agents_enterprise.RunStore.Lookup.{changed-KeepsId, with_id-map, head-keep}
use ai_agents_enterprise.RunStore.Claims.{row, AnswersUpdates}

eq_comm : (a b : String) → (a == b) ≡ (b == a)
eq_comm a b = ground (arith, eq_iff a b, eq_iff b a)

same_key_comm : (a b : Option String) → same_key a b ≡ same_key b a
same_key_comm none none = refl
same_key_comm none (some b) = refl
same_key_comm (some a) none = refl
same_key_comm (some a) (some b) = eq_comm a b

module _ {P : Type 0} where
  -- The row that `create_run` inserts.
  abbrev pub new_row :
      (now : ℕ) (id kind status : String) (payload : P) (key : Option String) → AgentRun P
  new_row now id kind status payload key = record {
    id = id;
    kind = kind;
    status = status;
    idempotency_key = key;
    payload = payload;
    error = none;
    created_at = now;
    updated_at = now;
  }

  abbrev pub keyed : String → String → AgentRun P → Bool
  keyed kind key r = r.kind == kind && same_key r.idempotency_key (some key)

  -- Behind rows that do not clash with it, a row is the one that its key finds.
  find-keyed :
      (kind key : String) (r : AgentRun P) (rs : List (AgentRun P))
      → keyed kind key r ≡ true
      → r.kind ≡ kind
      → r.idempotency_key ≡ some key
      → any (clashes r) rs ≡ false
      → find (keyed kind key) (rs ++ r ∷ []) ≡ some r
  unfolding clashes
  find-keyed kind key r [] m k i h = rw (m, find)
  find-keyed kind key r (x ∷ rs) m k i h =
      let apart : keyed kind key x ≡ false = rw (← k) (
        rw (← i) (
          rw (eq_comm x.kind r.kind)
            (rw (same_key_comm x.idempotency_key r.idempotency_key) (ground arith)))) in
      rw (apart, find) (find-keyed kind key r rs m k i (ground arith))

module _ {P : Type 0} (db : Database P) where
  open db use {Store, rows, select, insert}

  -- The database answers every SELECT.
  abbrev pub AnswersSelects : Type 0
  AnswersSelects =
      (p : AgentRun P → Bool) (s : Store) → (found : List (AgentRun P)) × (select p s ≡ ok found)

  select-keep :
      (up : AnswersSelects) (p : AgentRun P → Bool) (s : Store) → select p s ≡ ok (keep p (rows s))
  select-keep up p s = let (found, e) = up p s in e ∙ ap ok (db.rows-select p s e)

  -- The row that a lookup finds first is the one that a later submission gets.
  pub keyed_row :
      (kind key : String) (s : Store) (r : AgentRun P)
      → AnswersSelects
      → (key == "") ≡ false
      → find (keyed kind key) (rows s) ≡ some r
      → get_run_by_idempotency_key db kind key s ≡ some (to_record r)
  unfolding get_run_by_idempotency_key
  keyed_row kind key s r up named own =
      rw (named, select-keep up (keyed kind key) s)
        (ap (Option.map to_record) (head-keep (keyed kind key) (rows s) ∙ own))

  pub inserted_row :
      (now : ℕ) (id kind status key : String) (payload : P) (s s' : Store)
      → insert (new_row now id kind status payload (some key)) s ≡ ok s'
      → find (keyed kind key) (rows s') ≡ some (new_row now id kind status payload (some key))
  inserted_row now id kind status key payload s s' first =
      let (after, fits) = db.rows-insert (new_row now id kind status payload (some key)) s first in
      ap (find (keyed kind key)) after
      ∙ find-keyed kind key _ (rows s) (ground (arith, eq_refl kind, eq_refl key)) refl refl fits

  pub found_by_key :
      (now : ℕ) (id kind status key : String) (payload : P) (s s' : Store)
      → AnswersSelects
      → (key == "") ≡ false
      → insert (new_row now id kind status payload (some key)) s ≡ ok s'
      → get_run_by_idempotency_key db kind key s'
        ≡ some (to_record (new_row now id kind status payload (some key)))
  found_by_key now id kind status key payload s s' up named first =
      keyed_row kind key s' _ up named (inserted_row now id kind status key payload s s' first)

  existing_run_keyed :
      (id kind key : String) (s : Store) (r : RunRecord P)
      → get_run_by_idempotency_key db kind key s ≡ some r
      → existing_run db id kind (some key) s ≡ created r
  unfolding existing_run
  existing_run_keyed id kind key s r e = rw (e, existing_run)

  -- A submission whose key an earlier one has used in the same kind of run creates nothing: it gets
  -- the record of the run that is there, and the store stays as it is. The database must have
  -- stored the first and answer the SELECT, and refuse (not break at) the second INSERT; the key is
  -- not "".
  pub create_run-idempotent :
      (now now' : ℕ) (id id' kind status status' key : String) (payload payload' : P) (s s' : Store)
      → AnswersSelects
      → (key == "") ≡ false
      → insert (new_row now id kind status payload (some key)) s ≡ ok s'
      → insert (new_row now' id' kind status' payload' (some key)) s' ≡ integrity_error
      → create_run db now' id' kind status' payload' (some key) s'
        ≡ ((create_run db now id kind status payload (some key) s).0, s')
  unfolding create_run
  create_run-idempotent now now' id id' kind status status' key payload payload' s s' up named first
        again =
      let found = found_by_key now id kind status key payload s s' up named first in
      rw (first, again, create_run) (rw (existing_run_keyed id' kind key s' _ found))

  pub session_get-row :
      (id : String) (s : Store) → AnswersSelects → session_get db id s ≡ ok (row db s id)
  unfolding session_get
  session_get-row id s up =
      rw (select-keep up (λ r. r.id == id) s, session_get)
        (ap ok (head-keep (λ r. r.id == id) (rows s)))

  get_run_absent :
      (id : String) (s : Store) → AnswersSelects → row db s id ≡ none → get_run db id s ≡ none
  unfolding get_run
  get_run_absent id s up absent = rw (session_get-row id s up ∙ ap ok absent, get_run)

  existing_run_unkeyed :
      (id kind : String) (s : Store)
      → get_run db id s ≡ none
      → existing_run db id kind (some "") s ≡ reraised
  unfolding existing_run get_run_by_idempotency_key
  existing_run_unkeyed id kind s e = rw (e, existing_run)

  -- A second submission with the empty key and a new identifier raises the IntegrityError again:
  -- the lookup by key skips the empty text, and no run has the new identifier.
  pub create_run-empty_key :
      (now : ℕ) (id kind status : String) (payload : P) (s : Store)
      → AnswersSelects
      → row db s id ≡ none
      → insert (new_row now id kind status payload (some "")) s ≡ integrity_error
      → create_run db now id kind status payload (some "") s ≡ (reraised, s)
  unfolding create_run
  create_run-empty_key now id kind status payload s up absent again =
      rw (again, create_run) (rw (existing_run_unkeyed id kind s (get_run_absent id s up absent)))

  -- A run that is `running` and whose last heartbeat is more than `ttl` seconds before `now`.
  abbrev pub is_dead : (now ttl : ℕ) → AgentRun P → Bool
  is_dead now ttl r =
      if r.status == "running" then ltb (r.updated_at + ttl * 1000000) now else false

  abbrev pub swept : (now ttl : ℕ) → AgentRun P → AgentRun P
  swept now ttl r =
      if is_dead now ttl r
      then record r { status = "failed"; error = some (no_heartbeat ttl); updated_at = now }
      else r

  ltb_moved : (a now t : ℕ) → ltb a (now - t * 1000000) ≡ ltb (a + t * 1000000) now
  ltb_moved a now t = ground arith

  stuck-eq-is_dead :
      (now ttl : ℕ) (r : AgentRun P) → stuck (now - seconds ttl) r ≡ is_dead now ttl r
  unfolding stuck
  stuck-eq-is_dead now ttl r = elim (Bool-cases (r.status == "running")) [
    | inl e ↦ rw (stuck, is_dead, e) (ltb_moved r.updated_at now ttl)
    | inr e ↦ rw (stuck, is_dead, e) refl
  ]

  count-ext :
      (p q : AgentRun P → Bool)
      → ((r : AgentRun P) → p r ≡ q r)
      → (rs : List (AgentRun P)) → count p rs ≡ count q rs
  count-ext p q h [] = refl
  count-ext p q h (r ∷ rs) = rw (count, h r, count-ext p q h rs) refl

  Option-map_ext :
      (f g : AgentRun P → AgentRun P)
      → ((r : AgentRun P) → f r ≡ g r)
      → (o : Option (AgentRun P)) → Option.map f o ≡ Option.map g o
  Option-map_ext f g h none = refl
  Option-map_ext f g h (some r) = ap some (h r)

  pub record Swept (now ttl : ℕ) (s : Store) (result : ℕ × Store) : Type 0 where
    pub counted : result.0 ≡ count (is_dead now ttl) (rows s)
    pub each : (id : String) → row db result.1 id ≡ Option.map (swept now ttl) (row db s id)

  -- While the database answers, the sweep fails exactly the runs that are `running` with a last
  -- heartbeat more than `ttl` seconds ago, leaves every other row as it is, whatever its status,
  -- and returns how many it failed.
  pub sweep_stuck_runs-Swept :
      (now ttl : ℕ) (s : Store)
      → AnswersUpdates db
      → Swept now ttl s (sweep_stuck_runs db now ttl s)
  unfolding sweep_stuck_runs
  sweep_stuck_runs-Swept now ttl s up =
      let f : AgentRun P → AgentRun P =
        λ r. record r { status = "failed"; error = some (no_heartbeat ttl); updated_at = now } in
      let (n, s', e) = up (stuck (now - seconds ttl)) f s in
      let (after, counted) = db.rows-update_where (stuck (now - seconds ttl)) f s e in
      rw (e, sweep_stuck_runs)
        (record {
          counted =
              counted
              ∙ count-ext (stuck (now - seconds ttl)) (is_dead now ttl) (stuck-eq-is_dead now ttl)
                  (rows s);
          each = λ id.
              ap (with_id id) after
              ∙ with_id-map _ (changed-KeepsId (stuck (now - seconds ttl)) f (λ r. refl)) id
                  (rows s)
              ∙ Option-map_ext _ (swept now ttl) (λ r. rw (swept, stuck-eq-is_dead now ttl r) refl)
                  (with_id id (rows s));
        })
