-- ===== src/Autonomous/Runs/Executed.antt =====
-- The deliveries of a background run, across the run store and the agent: what the one that
-- executes it leaves, and what the later ones do once its end is committed. Before that, a second
-- delivery can execute the run too, when the lease of the first has expired.
use ai_agents_enterprise.Prelude.{
  ℕ, String, ◌≡◌, refl, sym, ap, ◌∙◌, subst, true, false, Option, none, some, Option-cases,
  some_injective, Bool-cases, inl, inr, ◌⊎◌,
}
use ai_agents_enterprise.RunStore.Database.{AgentRun, Database, HasDistinctIds, ok}
use ai_agents_enterprise.RunStore.Operations.{RunRecord, to_record, get_run, claim_run, claimable}
use ai_agents_enterprise.RunStore.Claims.{row, may_claim, AnswersUpdates, claim_run-Claimed}
use ai_agents_enterprise.RunStore.Creation.{AnswersSelects, session_get-row}
use ai_agents_enterprise.RunStore.Upserts.{upsert_run-Upserted}
use ai_agents_enterprise.Autonomous.Engine.{
  Autonomy, AutonomousResult, Outcome, done, no_model, type_error, run_autonomous,
}
use ai_agents_enterprise.Autonomous.Runs.{
  Payloads, kind, default_max_iterations, end_status, write_end, trace, execute_run,
}

-- The states that no claim takes up again.
abbrev pub IsTerminal : String → Type 0
IsTerminal status = (status ≡ "completed") ⊎ ((status ≡ "max_steps_reached") ⊎ (status ≡ "failed"))

not_claimable :
    {P : Type 0} (now lease : ℕ) (r : AgentRun P)
    → IsTerminal r.status
    → may_claim now lease (some r) ≡ false
unfolding claimable
not_claimable now lease r (inl e) = rw e
not_claimable now lease r (inr (inl e)) = rw e
not_claimable now lease r (inr (inr e)) = rw e

module _ {P : Type 0} (db : Database P) where
  open db use {Store, rows}

  get_run-terminal :
      (id : String) (s : Store) (r : RunRecord P) (now lease : ℕ)
      → AnswersSelects db
      → get_run db id s ≡ some r
      → IsTerminal r.status
      → may_claim now lease (row db s id) ≡ false
  unfolding get_run to_record
  get_run-terminal id s r now lease up e t = elim (Option-cases (row db s id)) [
    | inl n ↦ rw n
    | inr (x, n) ↦
        let at_row = session_get-row db id s up ∙ ap ok n in
        let same : to_record x ≡ r = some_injective (rw (get_run, at_row) at e) in
        rw n (not_claimable now lease x (subst (λ y. IsTerminal y.status) (sym same) t))
  ]

  get_run-kept :
      (id : String) (s s' : Store) (r : RunRecord P)
      → AnswersSelects db
      → row db s' id ≡ row db s id
      → get_run db id s ≡ some r
      → get_run db id s' ≡ some r
  unfolding get_run
  get_run-kept id s s' r up same e =
      let before = session_get-row db id s up in
      let after = session_get-row db id s' up ∙ ap ok same in
      rw (get_run, after) (rw (get_run, before) at e)

  module _ (payloads : Payloads P) {A I W : Type 0} (auto : Autonomy A I W) (clock : W → ℕ)
      (error_of : Outcome → String) (meanwhile : Store → Store)
      (record_run : AutonomousResult → W → W) where
    end_status-IsTerminal :
        (o : Outcome)
        → IsTerminal (end_status db payloads auto clock error_of meanwhile record_run o)
    end_status-IsTerminal no_model = inr (inr refl)
    end_status-IsTerminal type_error = inr (inr refl)
    end_status-IsTerminal (done r) = elim (Bool-cases r.completed) [
      | inl e ↦ inl (rw e)
      | inr e ↦ inr (inl (rw e))
    ]

    -- A delivery of a run at a store.
    abbrev pub delivered : (lease : ℕ) (run_id goal : String) → Store → W → Store × W
    delivered = execute_run db payloads auto clock error_of meanwhile record_run

    lost :
        (lease : ℕ) (run_id goal : String) (s : Store) (w : W)
        → AnswersUpdates db
        → HasDistinctIds (rows s)
        → may_claim (clock w) lease (row db s run_id) ≡ false
        → delivered lease run_id goal s w ≡ ((claim_run db (clock w) run_id lease s).1, w)
    unfolding execute_run
    lost lease run_id goal s w up distinct no_claim =
        let h = claim_run-Claimed db (clock w) run_id lease s up distinct in
        rw (execute_run, h.won ∙ no_claim)

    -- What may happen to a store: deliveries of a run, at any time and with any lease, and changes
    -- that keep the run's row.
    pub data Since (run_id : String) (first : Store) : Store → Type 0 where
      at_once : Since run_id first first
      delivery :
          (s : Store) (lease : ℕ) (goal : String) (w : W)
          → Since run_id first s
          → Since run_id first (delivered lease run_id goal s w).0
      elsewhere :
          (s s' : Store)
          → Since run_id first s
          → row db s' run_id ≡ row db s run_id
          → HasDistinctIds (rows s')
          → Since run_id first s'

    -- A row that nobody may claim stays as it is.
    Since-kept :
        (run_id : String) (first s : Store)
        → AnswersUpdates db
        → HasDistinctIds (rows first)
        → ((now lease : ℕ) → may_claim now lease (row db first run_id) ≡ false)
        → Since run_id first s
        → (row db s run_id ≡ row db first run_id) × HasDistinctIds (rows s)
    Since-kept run_id first s up distinct no_claim at_once = (refl, distinct)
    Since-kept run_id first s up distinct no_claim (delivery t lease goal w before) =
        let h = Since-kept run_id first t up distinct no_claim before in
        let barred : may_claim (clock w) lease (row db t run_id) ≡ false =
          ap (may_claim (clock w) lease) h.0 ∙ no_claim (clock w) lease in
        let c = claim_run-Claimed db (clock w) run_id lease t up h.1 in
        let own : row db (claim_run db (clock w) run_id lease t).1 run_id ≡ row db t run_id =
          rw barred at c.own in
        rw (lost lease run_id goal t w up h.1 barred) (own ∙ h.0, c.distinct)
    Since-kept run_id first s up distinct no_claim (elsewhere t t' before same others) =
        (same ∙ (Since-kept run_id first t up distinct no_claim before).0, others)

    -- The run of the agent on a delivery.
    abbrev pub outcome : (goal : String) → W → Outcome × W
    outcome goal w = run_autonomous auto goal default_max_iterations w

    -- The store in which the run's end is written, and the write.
    abbrev pub ending :
        (lease : ℕ) (run_id goal : String) → Store → W → Option (RunRecord P) × Store
    ending lease run_id goal s w =
        write_end db payloads auto clock error_of meanwhile record_run (clock (outcome goal w).1)
          run_id goal (outcome goal w).0 (meanwhile (claim_run db (clock w) run_id lease s).1)

    abbrev pub traced : Outcome → W → W
    traced = trace db payloads auto clock error_of meanwhile record_run

    -- A delivery that finds the run pending, or running on an expired lease, runs the agent and
    -- writes the end. If this write is committed, whatever heartbeats and other processes did to
    -- the store meanwhile, the run is completed, max_steps_reached or failed, and stays so for
    -- every reader at every later store: after any number of further deliveries of it, at any time
    -- and with any lease, and any changes that keep the run's row. At every such store a delivery
    -- does nothing to the world. The database answers, and primary keys differ.
    pub execute_run-once :
        (lease lease' : ℕ) (run_id goal goal' : String) (s s' : Store) (w later : W)
        (r : RunRecord P)
        → AnswersSelects db
        → AnswersUpdates db
        → HasDistinctIds (rows s)
        → HasDistinctIds (rows (ending lease run_id goal s w).1)
        → may_claim (clock w) lease (row db s run_id) ≡ true
        → (ending lease run_id goal s w).0 ≡ some r
        → Since run_id (ending lease run_id goal s w).1 s'
        → (delivered lease run_id goal s w
            ≡ ((ending lease run_id goal s w).1, traced (outcome goal w).0 (outcome goal w).1))
          × (get_run db run_id s' ≡ some r)
          × IsTerminal r.status
          × ((delivered lease' run_id goal' s' later).1 ≡ later)
    unfolding execute_run write_end
    execute_run-once lease lease' run_id goal goal' s s' w later r selects updates distinct
          distinct' claim stored since =
        let h = claim_run-Claimed db (clock w) run_id lease s updates distinct in
        let u =
          upsert_run-Upserted db _ run_id kind _ _ none _ _ (ending lease run_id goal s w).1 r
            selects (ap (λ x. (x, (ending lease run_id goal s w).1)) stored) in
        let terminal : IsTerminal r.status =
          subst IsTerminal (sym u.latest.0) (end_status-IsTerminal (outcome goal w).0) in
        let barred =
          λ (now lease : ℕ). get_run-terminal run_id _ r now lease selects u.read terminal in
        let kept = Since-kept run_id _ s' updates distinct' barred since in
        let still = get_run-kept run_id _ s' r selects kept.0 u.read in
        (
          rw (execute_run, h.won ∙ claim),
          still,
          terminal,
          ap (λ p. p.1)
              (lost lease' run_id goal' s' later updates kept.1
                (get_run-terminal run_id s' r (clock later) lease' selects still terminal)),
        )
