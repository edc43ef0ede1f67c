-- ===== src/RunStore/Lookup.antt =====
-- Rows by primary key, across the changes that a transaction makes to the table.
use mathlib.Core.Option
use ai_agents_enterprise.Prelude.{
  String, ◌≡◌, refl, ap, ◌∙◌, Bool, none, some, List, [], ◌∷◌, ◌++◌, map, keep, find, ◌==◌, eq_iff,
  ◌&&◌, if◌then◌else◌, arith, inl, inr, Bool-cases,
}
use ai_agents_enterprise.RunStore.Database.{AgentRun, with_id, count, HasDistinctIds}
use ai_agents_enterprise.RunStore.Operations.{head}

module _ {P : Type 0} where
  pub head-keep : (p : AgentRun P → Bool) (rs : List (AgentRun P)) → head (keep p rs) ≡ find p rs
  head-keep p [] = refl
  head-keep p (r ∷ rs) = ground (arith, head-keep p rs)

  -- What `UPDATE … WHERE p` makes of a row.
  abbrev pub changed : (AgentRun P → Bool) → (AgentRun P → AgentRun P) → AgentRun P → AgentRun P
  changed p f r = if p r then f r else r

  abbrev pub KeepsId : (AgentRun P → AgentRun P) → Type 0
  KeepsId f = (r : AgentRun P) → (f r).id ≡ r.id

  pub changed-KeepsId :
      (p : AgentRun P → Bool) (f : AgentRun P → AgentRun P) → KeepsId f → KeepsId (changed p f)
  changed-KeepsId p f h r = ground (arith, h r)

  pub with_id-map :
      (g : AgentRun P → AgentRun P)
      → KeepsId g
      → (id : String) (rs : List (AgentRun P))
      → with_id id (map g rs) ≡ Option.map g (with_id id rs)
  with_id-map g h id [] = refl
  with_id-map g h id (r ∷ rs) =
      let same : ((g r).id == id) ≡ (r.id == id) = ap (λ i. i == id) (h r) in
      elim (Bool-cases (r.id == id)) [
        | inl e ↦ rw (same ∙ e, find) (rw (e, find))
        | inr e ↦ rw (same ∙ e, find) (rw (e, find) (with_id-map g h id rs))
      ]

  pub HasDistinctIds-map :
      (g : AgentRun P → AgentRun P)
      → KeepsId g
      → (rs : List (AgentRun P)) → HasDistinctIds rs
      → HasDistinctIds (map g rs)
  HasDistinctIds-map g h [] d = tt
  HasDistinctIds-map g h (r ∷ rs) d = (
    ap (λ i. with_id i (map g rs)) (h r) ∙ with_id-map g h r.id rs ∙ ap (Option.map g) d.0,
    HasDistinctIds-map g h rs d.1,
  )

  pub with_id-append :
      (id : String) (rs : List (AgentRun P)) (r : AgentRun P)
      → with_id id rs ≡ none
      → with_id id (rs ++ r ∷ []) ≡ (if r.id == id then some r else none)
  with_id-append id [] r h = ground arith
  with_id-append id (x ∷ rs) r h = ground (arith, with_id-append id rs r)

  count_absent :
      (q : AgentRun P → Bool) (id : String) (rs : List (AgentRun P))
      → with_id id rs ≡ none
      → count (λ r. r.id == id && q r) rs ≡ 0
  count_absent q id [] h = refl
  count_absent q id (r ∷ rs) h = ground (arith, count_absent q id rs)

  -- At most one row has the key, so the count of matching rows is a test of that row.
  pub count_at :
      (q : AgentRun P → Bool) (id : String) (rs : List (AgentRun P))
      → HasDistinctIds rs
      → count (λ r. r.id == id && q r) rs
        ≡ elim (with_id id rs) [ none ↦ 0 | some r ↦ if q r then 1 else 0 ]
  count_at q id [] d = refl
  count_at q id (r ∷ rs) d = elim (Bool-cases (r.id == id)) [
    | inl e ↦
        let same : r.id ≡ id = (eq_iff r.id id).0 e in
        rw e (ground (arith, count_absent q id rs (rw (← same) d.0)))
    | inr e ↦ rw e (count_at q id rs d.1)
  ]
