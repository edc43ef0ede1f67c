-- ===== src/RunStore/Claims.antt =====
-- `claim_run` as a compare-and-set of one row: a run that is delivered to several workers is won by
-- at most one of them while the winner's lease lasts.
use mathlib.Core.Option
use ai_agents_enterprise.Prelude.{
  ℕ, suc, ◌+◌, ◌-◌, ◌≤◌, String, ◌≡◌, refl, sym, ap, ◌∙◌, subst, Bool, true, false, Option, none,
  some, List, [], ◌∷◌, map, find-eq_some, ◌==◌, eq_iff, All, All-imp, ◌&&◌, if◌then◌else◌, arith,
  inl, inr, Bool-cases, nat_eq,
}
use ai_agents_enterprise.RunStore.Database.{AgentRun, ok, Database, with_id, HasDistinctIds}
use ai_agents_enterprise.RunStore.Operations.{claimable, claim_run, seconds}
use ai_agents_enterprise.RunStore.Lookup.{
  changed, changed-KeepsId, with_id-map, HasDistinctIds-map, count_at,
}

module _ {P : Type 0} where
  -- The row as a winner leaves it.
  abbrev pub claimed : (now : ℕ) → AgentRun P → AgentRun P
  claimed now r = record r { status = "running"; updated_at = now }

  -- The test of a claim, on the run's row.
  abbrev pub may_claim : (now lease : ℕ) → Option (AgentRun P) → Bool
  may_claim now lease none = false
  may_claim now lease (some r) = claimable (now - seconds lease) r

module _ {P : Type 0} (db : Database P) where
  open db use {Store, rows, update_where}

  abbrev pub row : Store → String → Option (AgentRun P)
  row s id = with_id id (rows s)

  -- The database answers every UPDATE.
  abbrev pub AnswersUpdates : Type 0
  AnswersUpdates =
      (p : AgentRun P → Bool) (f : AgentRun P → AgentRun P) (s : Store)
      → (n : ℕ) × (s' : Store) × (update_where p f s ≡ ok (n, s'))

  pub record Claimed (now : ℕ) (id : String) (lease : ℕ) (s : Store) (result : Bool × Store)
      : Type 0 where
    pub won : result.0 ≡ may_claim now lease (row s id)
    pub own :
        row result.1 id
        ≡ (if may_claim now lease (row s id) then Option.map (claimed now) (row s id) else row s id)
    pub others : (j : String) → (id == j) ≡ false → row result.1 j ≡ row s j
    pub distinct : HasDistinctIds (rows result.1)

  abbrev matches : (now : ℕ) → String → (lease : ℕ) → AgentRun P → Bool
  matches now id lease r = r.id == id && claimable (now - seconds lease) r

  -- The row of any key after the UPDATE.
  updated_row :
      (now : ℕ) (id : String) (lease : ℕ) (s : Store) (s' : Store)
      → rows s' ≡ map (changed (matches now id lease) (claimed now)) (rows s)
      → (j : String)
      → row s' j ≡ Option.map (changed (matches now id lease) (claimed now)) (row s j)
  updated_row now id lease s s' e j =
      ap (with_id j) e
      ∙ with_id-map _ (changed-KeepsId (matches now id lease) (claimed now) (λ r. refl)) j (rows s)

  won_at :
      (now lease : ℕ) (o : Option (AgentRun P))
      → nat_eq (elim o [ none ↦ 0 | some r ↦ if claimable (now - seconds lease) r then 1 else 0 ]) 1
        ≡ may_claim now lease o
  won_at now lease none = refl
  won_at now lease (some r) = ground arith

  own_at :
      (now : ℕ) (id : String) (lease : ℕ) (o : Option (AgentRun P))
      → ((r : AgentRun P) → o ≡ some r → (r.id == id) ≡ true)
      → Option.map (changed (matches now id lease) (claimed now)) o
        ≡ (if may_claim now lease o then Option.map (claimed now) o else o)
  own_at now id lease none h = refl
  own_at now id lease (some r) h = elim (Bool-cases (claimable (now - seconds lease) r)) [
    | inl c ↦ rw (h r refl) (rw c)
    | inr c ↦ rw (h r refl) (rw c)
  ]

  other_at :
      (now : ℕ) (id j : String) (lease : ℕ) (o : Option (AgentRun P))
      → ((r : AgentRun P) → o ≡ some r → (r.id == j) ≡ true)
      → (id == j) ≡ false
      → Option.map (changed (matches now id lease) (claimed now)) o ≡ o
  other_at now id j lease none h ne = refl
  other_at now id j lease (some r) h ne =
      let other : (r.id == id) ≡ false =
        ground (arith, h r refl, eq_iff r.id j, eq_iff r.id id, eq_iff id j) in
      rw other

  -- While the database answers and primary keys differ, a claim is won exactly if the run's row is
  -- pending, or running with a heartbeat older than the lease. A winner's row becomes running with
  -- the heartbeat of now, a loser's stays as it is, and so do the rows of all other runs.
  pub claim_run-Claimed :
      (now : ℕ) (id : String) (lease : ℕ) (s : Store)
      → AnswersUpdates
      → HasDistinctIds (rows s)
      → Claimed now id lease s (claim_run db now id lease s)
  unfolding claim_run
  claim_run-Claimed now id lease s up distinct =
      let (n, s', e) = up (matches now id lease) (claimed now) s in
      let (after, counted) = db.rows-update_where (matches now id lease) (claimed now) s e in
      rw (e, claim_run)
        (record {
          won =
              ap (λ c. nat_eq c 1) (counted ∙ count_at _ id (rows s) distinct)
              ∙ won_at now lease (row s id);
          own =
              updated_row now id lease s s' after id
              ∙ own_at now id lease (row s id) (find-eq_some _ (rows s));
          others = λ j ne.
              updated_row now id lease s s' after j
              ∙ other_at now id j lease (row s j) (find-eq_some _ (rows s)) ne;
          distinct = rw after (
              HasDistinctIds-map _
                (changed-KeepsId (matches now id lease) (claimed now) (λ r. refl)) (rows s)
                distinct);
        })

  -- Claims of one run, one after another, each at a time of its own: how many are won.
  unfoldable pub claims : String → (lease : ℕ) → (times : List ℕ) → Store → ℕ
  claims id lease [] s = 0
  claims id lease (t ∷ times) s =
      let (won, s') = claim_run db t id lease s in
      let rest = claims id lease times s' in if won then suc rest else rest

  -- The run is held since some time: running, with a heartbeat not older than that.
  abbrev IsHeld : ℕ → Option (AgentRun P) → Type 0
  IsHeld since none = ⊥
  IsHeld since (some r) = (r.status ≡ "running") × (since ≤ r.updated_at)

  held_not_claimable :
      (since now lease : ℕ) (o : Option (AgentRun P))
      → now ≤ since + seconds lease
      → IsHeld since o
      → may_claim now lease o ≡ false
  unfolding claimable
  held_not_claimable since now lease none le h = absurd h
  held_not_claimable since now lease (some r) le h = rw h.0 (ground arith)

  claimed-IsHeld :
      (now lease : ℕ) (o : Option (AgentRun P))
      → may_claim now lease o ≡ true
      → IsHeld now (Option.map (claimed now) o)
  claimed-IsHeld now lease none h = cc
  claimed-IsHeld now lease (some r) h = (refl, omega arith)

  claims_when_held :
      (id : String) (lease since : ℕ) (times : List ℕ) (s : Store)
      → AnswersUpdates
      → HasDistinctIds (rows s)
      → All (λ t. t ≤ since + seconds lease) times
      → IsHeld since (row s id)
      → claims id lease times s ≡ 0
  unfolding claims
  claims_when_held id lease since [] s up d late h = refl
  claims_when_held id lease since (t ∷ times) s up d late h =
      let c = claim_run-Claimed t id lease s up d in
      let shut = held_not_claimable since t lease (row s id) late.0 h in
      let same : row (claim_run db t id lease s).1 id ≡ row s id = c.own ∙ rw shut in
      rw (c.won ∙ shut) (
        claims_when_held id lease since times _ up c.distinct late.1
          (subst (IsHeld since) (sym same) h))

  -- However many workers a run is delivered to, at most one of their claims is won, if the claims
  -- come at times from `start` on and no later than the lease after it, while the database answers.
  pub claims-le-one :
      (id : String) (lease start : ℕ) (times : List ℕ) (s : Store)
      → AnswersUpdates
      → HasDistinctIds (rows s)
      → All (λ t. (start ≤ t) × (t ≤ start + seconds lease)) times
      → claims id lease times s ≤ 1
  unfolding claims
  claims-le-one id lease start [] s up d h = omega arith
  claims-le-one id lease start (t ∷ times) s up d h =
      let c = claim_run-Claimed t id lease s up d in
      elim (Bool-cases (may_claim t lease (row s id))) [
        | inl wins ↦
            let none_else : claims id lease times (claim_run db t id lease s).1 ≡ 0 =
              claims_when_held id lease t times _ up c.distinct
                (All-imp _ _ (λ u k. omega arith) times h.1)
                (rw c.own (rw wins (claimed-IsHeld t lease (row s id) wins))) in
            rw (c.won ∙ wins) (omega (arith, none_else))
        | inr loses ↦ rw (c.won ∙ loses) (claims-le-one id lease start times _ up c.distinct h.1)
      ]
