-- ===== src/Orchestrator/Registry/Idempotency.antt =====
-- A repeated Idempotency-Key, across the engine, the registry and the run store.
use ai_agents_enterprise.Prelude.{
  ℕ, String, ◌≡◌, refl, ap, ◌∙◌, false, none, some, ◌==◌, Dict, get, put,
}
use ai_agents_enterprise.RunStore.Database.{AgentRun, Database, ok}
use ai_agents_enterprise.RunStore.Operations.{
  to_record, get_run_by_idempotency_key, upsert_run, committed,
}
use ai_agents_enterprise.RunStore.Claims.{row}
use ai_agents_enterprise.RunStore.Creation.{
  AnswersSelects, new_row, keyed_row, inserted_row, session_get-row,
}
use ai_agents_enterprise.RunStore.Upserts.{row-insert}
use ai_agents_enterprise.Orchestrator.Registry.Histories.{Later, Holds, Later-Holds}
use ai_agents_enterprise.Orchestrator.Types.{WorkflowRun, WorkflowDef, Runtime}
use ai_agents_enterprise.Orchestrator.Engine.{finished, execute}
use ai_agents_enterprise.Orchestrator.Registry.{
  Codec, Registry, reply, status_text, evict, store_run, persist, launch, repeated, run_workflow,
}
use ai_agents_enterprise.Orchestrator.Registry.Persistence.{rehydrate_dumped}

module _ {V P W : Type 0} (db : Database P) (codec : Codec V P) (rt : Runtime W) (clock : W → ℕ)
    (workflows : Dict (WorkflowDef V W)) where
  open db use {Store, insert}
  open codec use {dump}

  -- The row of a run that was launched at `now` with a key.
  abbrev pub run_row : (now : ℕ) → WorkflowRun V → (key : String) → AgentRun P
  run_row now run key = new_row now run.id "workflow" (status_text run.status) (dump run) (some key)

  upsert_first :
      (now : ℕ) (run : WorkflowRun V) (key : String) (s s' : Store)
      → AnswersSelects db
      → row db s run.id ≡ none
      → insert (run_row now run key) s ≡ ok s'
      → (upsert_run db now run.id "workflow"
          (status_text run.status)
          (dump run)
          (some key)
          none
          s).1
        ≡ s'
  unfolding upsert_run
  upsert_first now run key s s' up absent done =
      rw (upsert_run, session_get-row db run.id s up ∙ ap ok absent) (rw (committed, done))

  first-Holds :
      (now : ℕ) (run : WorkflowRun V) (key : String) (s s' : Store)
      → row db s run.id ≡ none
      → insert (run_row now run key) s ≡ ok s'
      → Holds db codec run.id key s' run
  first-Holds now run key s s' absent done = record {
    x = run_row now run key;
    by_key =
        inserted_row db now run.id "workflow" (status_text run.status) key (dump run) s s' done;
    by_id = row-insert db (run_row now run key) s s' absent done;
    content = refl;
    version_id = refl;
  }

  -- A first call with a key that no run has executes its workflow and stores the run under the key.
  -- Then, at any later store, on any replica, a call with that key, for any workflow and any input,
  -- returns the run's latest stored version: it executes nothing, and the world and the store stay
  -- as they are. The stores in between are those of any number of newer versions that were stored
  -- without a key and committed, as a resumed run is, and of any changes that keep the run's row,
  -- by its identifier and by the key. The key is not "", the run's identifier is new, the engine's
  -- call returns, and the database stores the row and answers the SELECTs.
  pub run_workflow-repeated :
      (name name' key : String) (wf : WorkflowDef V W) (input input' : Dict V) (run : WorkflowRun V)
      (g : Registry V Store) (replica : Dict (WorkflowRun V)) (w w' later : W) (s' s'' : Store)
      (latest : WorkflowRun V)
      → AnswersSelects db
      → (key == "") ≡ false
      → get_run_by_idempotency_key db "workflow" key g.store ≡ none
      → get workflows name ≡ some wf
      → execute rt wf input w ≡ (finished run, w')
      → row db g.store run.id ≡ none
      → insert (run_row (clock w') run key) g.store ≡ ok s'
      → Later db codec run.id key s' run s'' latest
      → (run_workflow db codec rt clock workflows name input (some key) g w
          ≡ (reply run, record { cache = evict (put g.cache run.id run); store = s' }, w'))
        × (run_workflow db codec rt clock workflows name' input'
              (some key)
              (record { cache = replica; store = s'' })
              later
            ≡ (reply latest, record { cache = put replica run.id latest; store = s'' }, later))
  unfolding run_workflow repeated launch persist store_run to_record
  run_workflow-repeated name name' key wf input input' run g replica w w' later s' s'' latest up
        named fresh known runs absent done since =
      let h =
        Later-Holds db codec run.id key s' run s'' latest up
          (first-Holds (clock w') run key g.store s' absent done) since in
      (
        rw (run_workflow, fresh)
            (rw (launch, known)
              (rw (runs) (
                ap
                  (λ s.
                    (reply run, record { cache = evict (put g.cache run.id run); store = s }, w'))
                  (upsert_first (clock w') run key g.store s' up absent done)))),
        rw (run_workflow, keyed_row db "workflow" key s'' h.x up named h.by_key)
            (ap (λ p. (p.0, p.1, later))
                (rehydrate_dumped db codec latest _ (record { cache = replica; store = s'' })
                  h.content)
              ∙ ap
                  (λ i. (reply latest, record { cache = put replica i latest; store = s'' }, later))
                  h.version_id),
      )
