-- ===== src/RunStore/Upserts.antt =====
-- What `upsert_run` has committed is what `get_run` reads.
use mathlib.Core.Option
use ai_agents_enterprise.Prelude.{
  ℕ, String, ◌≡◌, refl, sym, ap, ◌∙◌, Option, none, some, Option-cases, find-eq_some, or_else, ◌==◌,
  eq_iff, eq_refl, if◌then◌else◌, arith, inl, inr, ◌⊎◌,
}
use ai_agents_enterprise.RunStore.Database.{
  AgentRun, Answer, ok, integrity_error, failure, Database, with_id, ErrorText,
}
use ai_agents_enterprise.RunStore.Operations.{RunRecord, to_record, get_run, upsert_run, committed}
use ai_agents_enterprise.RunStore.Lookup.{KeepsId, with_id-map, with_id-append}
use ai_agents_enterprise.RunStore.Claims.{row}
use ai_agents_enterprise.RunStore.Creation.{AnswersSelects, session_get-row}

pub Answer-cases :
    {A : Type 0} (x : Answer A) → ((a : A) × (x ≡ ok a)) ⊎ ((x ≡ integrity_error) ⊎ (x ≡ failure))
Answer-cases (ok a) = inl (a, refl)
Answer-cases integrity_error = inr (inl refl)
Answer-cases failure = inr (inr refl)

module _ {P : Type 0} where
  -- The SQL UPDATE of one row, and what it makes of the row.
  replaced : AgentRun P → AgentRun P → AgentRun P
  replaced r x = if x.id == r.id then r else x

  replaced-KeepsId : (r : AgentRun P) → KeepsId (replaced r)
  unfolding replaced
  replaced-KeepsId r x = ground (arith, eq_iff x.id r.id)

module _ {P : Type 0} (db : Database P) where
  open db use {Store, rows, insert, save}

  get_run-row :
      (id : String) (s : Store) (r : AgentRun P)
      → AnswersSelects db
      → row db s id ≡ some r
      → get_run db id s ≡ some (to_record r)
  unfolding get_run
  get_run-row id s r up e = rw (get_run, session_get-row db id s up ∙ ap ok e)

  pub row-insert :
      (r : AgentRun P) (s s' : Store)
      → row db s r.id ≡ none
      → insert r s ≡ ok s'
      → row db s' r.id ≡ some r
  row-insert r s s' absent e =
      let (after, fits) = db.rows-insert r s e in
      ap (with_id r.id) after ∙ with_id-append r.id (rows s) r absent ∙ rw (eq_refl r.id)

  pub row-save :
      (r old : AgentRun P) (s s' : Store)
      → row db s r.id ≡ some old
      → save r s ≡ ok s'
      → row db s' r.id ≡ some r
  unfolding replaced
  row-save r old s s' there e =
      let (after, fits) = db.rows-save r s e in
      ap (with_id r.id) after
      ∙ with_id-map (replaced r) (replaced-KeepsId r) r.id (rows s)
      ∙ ap (Option.map (replaced r)) there
      ∙ rw (find-eq_some (λ x. x.id == r.id) (rows s) old there)

  pub record Upserted (run_id kind status : String) (payload : P) (s' : Store) (r : RunRecord P)
      : Type 0 where
    pub read : get_run db run_id s' ≡ some r
    pub own : r.run_id ≡ run_id
    pub latest : (r.status ≡ status) × (r.payload ≡ payload)

  -- The commit of a row with the caller's status and payload.
  committed-Upserted :
      (run_id kind status : String) (payload : P) (new : AgentRun P) (answer : Answer Store)
      (s s' : Store) (r : RunRecord P)
      → AnswersSelects db
      → new.id ≡ run_id
      → (new.status ≡ status) × (new.payload ≡ payload)
      → ((t : Store) → answer ≡ ok t → row db t new.id ≡ some new)
      → committed db new answer s ≡ (some r, s')
      → Upserted run_id kind status payload s' r
  unfolding to_record
  committed-Upserted run_id kind status payload new (ok t) s s' r up same fields written e =
      let at_r : some (to_record new) ≡ some r = ap (λ p. p.0) e in
      let at_s : t ≡ s' = ap (λ p. p.1) e in
      let field = λ (f : RunRecord P → String). ap (λ o. f (or_else o (to_record new))) at_r in
      record {
        read = rw (← at_s, ← same) (get_run-row new.id t new up (written t refl) ∙ at_r);
        own = sym (field (λ x. x.run_id)) ∙ same;
        latest = (
          sym (field (λ x. x.status)) ∙ fields.0,
          sym (ap (λ o. (or_else o (to_record new)).payload) at_r) ∙ fields.1,
        );
      }
  committed-Upserted run_id kind status payload new integrity_error s s' r up same fields written
        e =
      cc
  committed-Upserted run_id kind status payload new failure s s' r up same fields written e = cc

  -- A commit of `upsert_run` is what every later read of the run returns: its record, under the
  -- identifier that was given, with the status and the payload that were given.
  pub upsert_run-Upserted :
      (now : ℕ) (run_id kind status : String) (payload : P) (key : Option String)
      (error : Option ErrorText) (s s' : Store) (r : RunRecord P)
      → AnswersSelects db
      → upsert_run db now run_id kind status payload key error s ≡ (some r, s')
      → Upserted run_id kind status payload s' r
  unfolding upsert_run
  upsert_run-Upserted now run_id kind status payload key error s s' r up e =
      let at_row = session_get-row db run_id s up in
      elim (Option-cases (row db s run_id)) [
        | inl absent ↦
            committed-Upserted run_id kind status payload _ _ s s' r up refl (refl, refl)
              (λ t done. row-insert _ s t absent done) (rw (upsert_run, at_row ∙ ap ok absent) at e)
        | inr (old, there) ↦
            let same : old.id ≡ run_id =
              (eq_iff old.id run_id).0 (find-eq_some (λ x. x.id == run_id) (rows s) old there) in
            committed-Upserted run_id kind status payload _ _ s s' r up same (refl, refl)
              (λ t done. row-save _ old s t (ap (row db s) same ∙ there) done)
              (rw (upsert_run, at_row ∙ ap ok there) at e)
      ]
