-- ===== src/Orchestrator/Registry/Histories.antt =====
-- What becomes of the row of a run that was stored under a key: the stores that a later call may
-- meet.
use ai_agents_enterprise.Prelude.{
  ℕ, String, ◌≡◌, refl, sym, ap, ◌∙◌, subst, true, false, Bool, none, some, some_injective,
  none_ne_some, Bool-cases, inl, inr, List, [], ◌∷◌, map, find, find-eq_some, ◌==◌, eq_iff,
  if◌then◌else◌,
}
use ai_agents_enterprise.RunStore.Database.{AgentRun, Answer, Database, ok, with_id}
use ai_agents_enterprise.RunStore.Operations.{RunRecord, upsert_run, committed}
use ai_agents_enterprise.RunStore.Claims.{row}
use ai_agents_enterprise.RunStore.Creation.{AnswersSelects, keyed, session_get-row}
use ai_agents_enterprise.RunStore.Upserts.{row-save}
use ai_agents_enterprise.Orchestrator.Types.{WorkflowRun}
use ai_agents_enterprise.Orchestrator.Registry.{Codec, Registry, status_text, store_run}

-- When the row that both a key and an identifier find is replaced by one with this key, the key
-- finds the new one.
find-replaced :
    {P : Type 0} (p : AgentRun P → Bool) (r x : AgentRun P) (rs : List (AgentRun P))
    → p r ≡ true
    → find p rs ≡ some x
    → with_id r.id rs ≡ some x
    → find p (map (λ y. if y.id == r.id then r else y) rs) ≡ some r
find-replaced p r x [] keyed_r found own = absurd (none_ne_some found)
find-replaced p r x (y ∷ ys) keyed_r found own = elim (Bool-cases (y.id == r.id)) [
  | inl e ↦
      let same : (if y.id == r.id then r else y) ≡ r = rw e refl in
      let rest = map (λ z. if z.id == r.id then r else z) ys in
      let own : find p (r ∷ rest) ≡ some r = rw (find, keyed_r) refl in
      subst (λ z. find p (z ∷ rest) ≡ some r) (sym same) own
  | inr e ↦ elim (Bool-cases (p y)) [
    | inl k ↦
        let same : y ≡ x = some_injective (rw (find, k) at found) in
        let other : (x.id == r.id) ≡ true =
          find-eq_some (λ z. z.id == r.id) ys x (rw (find, e) at own) in
        let apart : (x.id == r.id) ≡ false = subst (λ z. (z.id == r.id) ≡ false) same e in cc
    | inr k ↦
        rw (map, e)
          (rw (find, k)
            (find-replaced p r x ys keyed_r (rw (find, k) at found) (rw (find, e) at own)))
  ]
]

module _ {V P : Type 0} (db : Database P) (codec : Codec V P) (id key : String) where
  open db use {Store, rows, save}
  open codec use {dump}

  -- From a store with a version of the run on: a newer version is stored without a key, as
  -- `resume_run` does, and committed; or something else happens that leaves the run's row, by its
  -- identifier and by the key, as it is.
  pub data Later (first : Store) (run : WorkflowRun V) : Store → WorkflowRun V → Type 0 where
    at_once : Later first run first run
    newer :
        (g : Registry V Store) (v v' : WorkflowRun V) (now : ℕ) (r : RunRecord P)
        → Later first run g.store v
        → v'.id ≡ id
        → (upsert_run db now v'.id "workflow" (status_text v'.status) (dump v') none none g.store).0
          ≡ some r
        → Later first run (store_run db codec now v' none g).1.store v'
    elsewhere :
        (s s' : Store) (v : WorkflowRun V)
        → Later first run s v
        → row db s' id ≡ row db s id
        → find (keyed "workflow" key) (rows s') ≡ find (keyed "workflow" key) (rows s)
        → Later first run s' v

  -- The key and the identifier find one row, which holds the version.
  pub record Holds (s : Store) (v : WorkflowRun V) : Type 0 where
    pub x : AgentRun P
    pub by_key : find (keyed "workflow" key) (rows s) ≡ some x
    pub by_id : row db s id ≡ some x
    pub content : x.payload ≡ dump v
    pub version_id : v.id ≡ id

  committed-Holds :
      (s : Store) (v : WorkflowRun V) (x new : AgentRun P) (answer : Answer Store) (r : RunRecord P)
      → answer ≡ save new s
      → (find (keyed "workflow" key) (rows s) ≡ some x) × (row db s id ≡ some x)
      → keyed "workflow" key new ≡ true
      → new.id ≡ id
      → (new.payload ≡ dump v) × (v.id ≡ id)
      → (committed db new answer s).0 ≡ some r
      → Holds (committed db new answer s).1 v
  committed-Holds s v x new (ok t) r e h k same fields done =
      let (after, fits) = db.rows-save new s (sym e) in
      let own : row db s new.id ≡ some x = ap (row db s) same ∙ h.1 in
      record {
        x = new;
        by_key =
            ap (find (keyed "workflow" key)) after
            ∙ find-replaced (keyed "workflow" key) new x (rows s) k h.0 own;
        by_id = subst (λ i. row db t i ≡ some new) same (row-save db new x s t own (sym e));
        content = fields.0;
        version_id = fields.1;
      }
  committed-Holds s v x new Answer.integrity_error r e h k same fields done =
      absurd (none_ne_some done)
  committed-Holds s v x new Answer.failure r e h k same fields done = absurd (none_ne_some done)

  upsert_run-Holds :
      (now : ℕ) (v v' : WorkflowRun V) (s : Store) (r : RunRecord P)
      → AnswersSelects db
      → Holds s v
      → v'.id ≡ id
      → (upsert_run db now v'.id "workflow" (status_text v'.status) (dump v') none none s).0
        ≡ some r
      → Holds
          (upsert_run db now v'.id "workflow" (status_text v'.status) (dump v') none none s).1
          v'
  unfolding upsert_run
  upsert_run-Holds now v v' s r up h same done =
      let x = h.x in
      let at_row = session_get-row db v'.id s up ∙ ap ok (ap (row db s) same ∙ h.by_id) in
      let new : AgentRun P = record x {
        status = status_text v'.status;
        payload = dump v';
        error = none;
        updated_at = now;
        idempotency_key = x.idempotency_key;
      } in
      rw (upsert_run, at_row)
        (committed-Holds s v' x new (save new s) r refl (h.by_key, h.by_id)
          (find-eq_some (keyed "workflow" key) (rows s) x h.by_key)
          ((eq_iff x.id id).0 (find-eq_some (λ y. y.id == id) (rows s) x h.by_id)) (refl, same)
          (rw (upsert_run, at_row) at done))

  pub Later-Holds :
      (first : Store) (run : WorkflowRun V) (s : Store) (v : WorkflowRun V)
      → AnswersSelects db
      → Holds first run
      → Later first run s v
      → Holds s v
  unfolding store_run
  Later-Holds first run s v up h at_once = h
  Later-Holds first run s v up h (newer g u v' now r l same done) =
      upsert_run-Holds now u v g.store r up (Later-Holds first run g.store u up h l) same done
  Later-Holds first run s v up h (elsewhere t t' u l by_id by_key) =
      let k = Later-Holds first run t u up h l in
      record {
        x = k.x;
        by_key = by_key ∙ k.by_key;
        by_id = by_id ∙ k.by_id;
        content = k.content;
        version_id = k.version_id;
      }
