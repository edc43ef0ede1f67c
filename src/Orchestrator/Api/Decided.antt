-- ===== src/Orchestrator/Api/Decided.antt =====
-- What an answer of the approval endpoints says of the run and of the world.
use ai_agents_enterprise.Prelude.{
  ℕ, String, ◌≡◌, refl, true, false, Option, none, some, Option-cases, Dict, get, Bool-cases, inl,
  inr, ◌⊎◌,
}
use ai_agents_enterprise.RunStore.Database.{Database}
use ai_agents_enterprise.RunStore.Operations.{get_run}
use ai_agents_enterprise.Orchestrator.Types.{
  ApprovalDecision, missing_key, no_provider, other_error, WorkflowRun, WorkflowDef, Runtime,
}
use ai_agents_enterprise.Orchestrator.Engine.{
  Drive, finished, crashed, out_of_fuel, resumed, waiting_at, resume,
}
use ai_agents_enterprise.Orchestrator.Registry.{
  Codec, Registry, Reply, reply, raise, key_error, not_waiting, invalid_payload, unavailable,
  engine_error, load, rehydrate, persist, persist_resumed, resume_loaded, resume_run,
}
use ai_agents_enterprise.Orchestrator.Api.{
  Result, answer_decision, unauthorized, not_found, conflict, service_unavailable, server_error,
  accepted, refused, is_authorized, decide,
}

module _ {V W P : Type 0} (db : Database P) (codec : Codec V P) (rt : Runtime W) (clock : W → ℕ)
    (workflows : Dict (WorkflowDef V W)) (record_run : WorkflowRun V → W → W) where
  open db use {Store}

  -- The run that is on record waits at a gate of a workflow that is known.
  pub record Waited (run_id : String) (g : Registry V Store) : Type 0 where
    pub run : WorkflowRun V
    pub gate : String
    pub wf : WorkflowDef V W
    pub loaded : (load db codec run_id g).0 ≡ some (reply run)
    pub waiting : waiting_at run ≡ some gate
    pub known : get workflows run.workflow ≡ some wf

  -- The run that is on record waits at no gate.
  pub record NotWaiting (run_id : String) (g : Registry V Store) : Type 0 where
    pub run : WorkflowRun V
    pub loaded : (load db codec run_id g).0 ≡ some (reply run)
    pub idle : waiting_at run ≡ none

  -- What an outcome of `resume_run` says, from a world `w`.
  abbrev Says :
      String → Registry V Store → W → Reply (WorkflowRun V) × Registry V Store × W → Type 0
  Says run_id g w (reply run, g', w') = Waited run_id g
  Says run_id g w (raise engine_error, g', w') = Waited run_id g
  Says run_id g w (raise unavailable, g', w') = Waited run_id g
  Says run_id g w (raise key_error, g', w') = (w' ≡ w) ⊎ Waited run_id g
  Says run_id g w (raise not_waiting, g', w') = (w' ≡ w) × NotWaiting run_id g
  Says run_id g w (raise invalid_payload, g', w') = w' ≡ w

  Drive-Says :
      (run_id : String) (g g' : Registry V Store) (w w' : W) (d : Drive V)
      → Waited run_id g
      → Says run_id g w (persist_resumed db codec rt clock workflows (resumed d) g' w')
  unfolding persist_resumed persist
  Drive-Says run_id g g' w w' (finished run) h = h
  Drive-Says run_id g g' w w' (crashed missing_key run) h = inr h
  Drive-Says run_id g g' w w' (crashed no_provider run) h = h
  Drive-Says run_id g g' w w' (crashed other_error run) h = h
  Drive-Says run_id g g' w w' out_of_fuel h = h

  resume_loaded-Says :
      (run_id : String) (run : WorkflowRun V) (decision : ApprovalDecision) (actor : String)
      (reason : Option String) (g g' : Registry V Store) (w : W)
      → (load db codec run_id g).0 ≡ some (reply run)
      → Says run_id g w (resume_loaded db codec rt clock workflows run decision actor reason g' w)
  unfolding resume_loaded resume
  resume_loaded-Says run_id run decision actor reason g g' w loaded =
      elim (Option-cases (get workflows run.workflow)) [
        | inl e ↦ rw (resume_loaded, e) (inl refl)
        | inr (wf, e) ↦ elim (Option-cases (waiting_at run)) [
          | inl n ↦
              rw (resume_loaded, e, resume, n)
                (unfold persist_resumed in (refl, record { run = run; loaded = loaded; idle = n }))
          | inr (gate, n) ↦
              rw (resume_loaded, e, resume, n)
                (Drive-Says run_id g g' w _ _ (record {
                  run = run;
                  gate = gate;
                  wf = wf;
                  loaded = loaded;
                  waiting = n;
                  known = e;
                }))
        ]
      ]

  load-cases :
      (run_id : String) (g : Registry V Store)
      → ((load db codec run_id g).0 ≡ none)
        ⊎ (((load db codec run_id g).0 ≡ some (raise invalid_payload))
            ⊎ ((run : WorkflowRun V) × ((load db codec run_id g).0 ≡ some (reply run))))
  unfolding load rehydrate
  load-cases run_id g = elim (Option-cases (get g.cache run_id)) [
    | inr (run, e) ↦ inr (inr (run, rw (load, e)))
    | inl e ↦ elim (Option-cases (get_run db run_id g.store)) [
      | inl n ↦ inl (rw (load, e, n))
      | inr (r, n) ↦ elim (Option-cases (codec.model_validate r.payload)) [
        | inl v ↦ inr (inl (rw (load, e, n, rehydrate, v)))
        | inr (run, v) ↦ inr (inr (run, rw (load, e, n, rehydrate, v)))
      ]
    ]
  ]

  resume_run-Says :
      (run_id : String) (decision : ApprovalDecision) (actor : String) (reason : Option String)
      (g : Registry V Store) (w : W)
      → Says run_id g w (resume_run db codec rt clock workflows run_id decision actor reason g w)
  unfolding resume_run
  resume_run-Says run_id decision actor reason g w = elim (load-cases run_id g) [
    | inl e ↦ rw (resume_run, e) (inl refl)
    | inr (inl e) ↦ rw (resume_run, e) refl
    | inr (inr (run, e)) ↦
        rw (resume_run, e) (resume_loaded-Says run_id run decision actor reason g _ w e)
  ]

  -- What an answer of `decide` says.
  abbrev pub Decided :
      (approval_token : String)
      → String
      → Option String
      → Registry V Store
      → W
      → Result V Store W
      → Type 0
  Decided approval_token run_id token g w (accepted run, g', w') =
      (is_authorized approval_token token ≡ true) × Waited run_id g
  Decided approval_token run_id token g w (refused unauthorized, g', w') =
      (is_authorized approval_token token ≡ false) × (g' ≡ g) × (w' ≡ w)
  Decided approval_token run_id token g w (refused not_found, g', w') =
      (is_authorized approval_token token ≡ true) × ((w' ≡ w) ⊎ Waited run_id g)
  Decided approval_token run_id token g w (refused conflict, g', w') =
      (is_authorized approval_token token ≡ true) × (w' ≡ w) × NotWaiting run_id g
  Decided approval_token run_id token g w (refused service_unavailable, g', w') =
      (is_authorized approval_token token ≡ true) × Waited run_id g
  Decided approval_token run_id token g w (refused server_error, g', w') =
      (is_authorized approval_token token ≡ true) × ((w' ≡ w) ⊎ Waited run_id g)

  answer_decision-Decided :
      (approval_token run_id : String) (token : Option String) (g : Registry V Store) (w : W)
      (r : Reply (WorkflowRun V) × Registry V Store × W)
      → is_authorized approval_token token ≡ true
      → Says run_id g w r
      → Decided approval_token run_id token g w (answer_decision record_run r)
  unfolding answer_decision
  answer_decision-Decided approval_token run_id token g w (reply run, g', w') ok h = (ok, h)
  answer_decision-Decided approval_token run_id token g w (raise key_error, g', w') ok h = (ok, h)
  answer_decision-Decided approval_token run_id token g w (raise not_waiting, g', w') ok h =
      (ok, h.0, h.1)
  answer_decision-Decided approval_token run_id token g w (raise unavailable, g', w') ok h = (ok, h)
  answer_decision-Decided approval_token run_id token g w (raise invalid_payload, g', w') ok h =
      (ok, inl h)
  answer_decision-Decided approval_token run_id token g w (raise engine_error, g', w') ok h =
      (ok, inr h)

  -- Without the configured token, if one is configured, an approval or a rejection is refused as
  -- unauthorized and touches nothing at all. With it, the answer is an acceptance only for a run
  -- that is on record, of a known workflow, and waiting at a gate; a conflict only for a run on
  -- record that does not wait, with the world as it was; unavailable only for a run that was
  -- waiting; and not found or a server error either leaves the world as it was or is of a run that
  -- was waiting. So no step of a workflow runs unless a waiting run was decided on with the token.
  -- A branch function may raise: a KeyError of one is answered as not found although the gate's
  -- step has run.
  pub decide-Decided :
      (approval_token run_id : String) (decision : ApprovalDecision) (actor : String)
      (reason token : Option String) (g : Registry V Store) (w : W)
      → Decided approval_token run_id token g w (
          decide db codec rt clock workflows record_run approval_token run_id decision actor reason
            token g w)
  unfolding decide
  decide-Decided approval_token run_id decision actor reason token g w =
      elim (Bool-cases (is_authorized approval_token token)) [
        | inr e ↦ rw (decide, e) (e, refl, refl)
        | inl e ↦
            rw (decide, e)
              (answer_decision-Decided approval_token run_id token g w _ e
                (resume_run-Says run_id decision actor reason g w))
      ]
