-- ===== src/RunStore/Listings.antt =====
-- The listings of runs.py: `list_runs` and `list_nonterminal_runs`. Of rows with the same
-- `created_at`, whose order SQL leaves open, the one that the table has first comes first.
use ai_agents_enterprise.Prelude.{
  ℕ, String, Bool, true, Option, none, some, List, [], ◌∷◌, map, take, leb, ◌==◌, if◌then◌else◌,
}
use ai_agents_enterprise.RunStore.Database.{AgentRun, Answer, ok, Database}
use ai_agents_enterprise.RunStore.Operations.{RunRecord, to_record, is_nonterminal}

-- ORDER BY, with a test of which of two rows may stand first.
abbrev pub insert_by {ℓ} : {A : Type ℓ} → (A → A → Bool) → A → List A → List A
insert_by first x [] = x ∷ []
insert_by first x (y ∷ ys) =
    let rest = insert_by first x ys in if first x y then x ∷ y ∷ ys else y ∷ rest

abbrev pub order_by {ℓ} : {A : Type ℓ} → (A → A → Bool) → List A → List A
order_by first [] = []
order_by first (x ∷ xs) = insert_by first x (order_by first xs)

module _ {P : Type 0} where
  abbrev pub older : AgentRun P → AgentRun P → Bool
  older a b = leb a.created_at b.created_at

  abbrev pub newer : AgentRun P → AgentRun P → Bool
  newer a b = leb b.created_at a.created_at

  -- The records of at most `limit` of the rows; an exception lists none.
  abbrev pub listed :
      (AgentRun P → AgentRun P → Bool)
      → (limit : ℕ) → Answer (List (AgentRun P))
      → List (RunRecord P)
  listed first limit (ok found) = map to_record (take limit (order_by first found))
  listed first limit _ = []

  abbrev pub of_kind : Option String → AgentRun P → Bool
  of_kind none r = true
  of_kind (some kind) r = r.kind == kind

module _ {P : Type 0} (db : Database P) where
  open db use {Store, select}

  unfoldable pub list_runs : (kind : Option String) → (limit : ℕ) → Store → List (RunRecord P)
  list_runs kind limit s = listed newer limit (select (of_kind kind) s)

  unfoldable pub list_nonterminal_runs : (limit : ℕ) → Store → List (RunRecord P)
  list_nonterminal_runs limit s = listed older limit (select is_nonterminal s)
