-- ===== src/RunStore/Database.antt =====
-- What runs.py takes from the database: the table `agent_runs` of models.py behind SQLAlchemy. The
-- server is not this repository's code, so it is a parameter: its operations, and its documented
-- behaviour as laws on the rows that it holds. A timestamp is a number of microseconds, since the
-- source compares fixed-width texts, whose order is that of the numbers.
use ai_agents_enterprise.Prelude.{
  ℕ, suc, String, ◌≡◌, Bool, true, false, Option, none, some, List, [], ◌∷◌, ◌++◌, map, keep, find,
  any, ◌==◌, ◌&&◌, ◌||◌, not, if◌then◌else◌,
}

-- The texts of `error`: one that a caller gives, or the sweeper's, which prints its limit in
-- seconds.
pub data ErrorText : Type 0 where
  text : String → ErrorText
  no_heartbeat : ℕ → ErrorText

pub record AgentRun (P : Type 0) : Type 0 where
  pub id : String
  pub kind : String
  pub status : String
  pub idempotency_key : Option String
  pub payload : P
  pub error : Option ErrorText
  pub created_at : ℕ
  pub updated_at : ℕ

-- The outcome of a transaction. After an exception it is rolled back: there is no new store.
pub data Answer {ℓ} (A : Type ℓ) : Type ℓ where
  ok : A → Answer A
  integrity_error failure : Answer A

-- `idempotency_key` against a key of another row; NULL is distinct from everything.
abbrev pub same_key : Option String → Option String → Bool
same_key (some a) (some b) = a == b
same_key _ _ = false

abbrev pub count {ℓ} : {A : Type ℓ} → (A → Bool) → List A → ℕ
count p [] = 0
count p (x ∷ xs) = if p x then suc (count p xs) else count p xs

module _ {P : Type 0} where
  -- Both rows cannot be in the table: the primary key, and UNIQUE(kind, idempotency_key).
  unfoldable pub clashes : AgentRun P → AgentRun P → Bool
  clashes a b = a.id == b.id || a.kind == b.kind && same_key a.idempotency_key b.idempotency_key

  abbrev pub with_id : String → List (AgentRun P) → Option (AgentRun P)
  with_id id = find (λ r. r.id == id)

  -- Every two rows differ in their primary keys.
  abbrev pub HasDistinctIds : List (AgentRun P) → Type 0
  HasDistinctIds [] = Unit
  HasDistinctIds (r ∷ rs) = (with_id r.id rs ≡ none) × HasDistinctIds rs

pub record Database (P : Type 0) : Type 1 where
  pub Store : Type 0
  pub rows : Store → List (AgentRun P)
  pub select : (AgentRun P → Bool) → Store → Answer (List (AgentRun P))
  pub insert : AgentRun P → Store → Answer Store
  -- the row of an object that the session has loaded, written back under its primary key
  pub save : AgentRun P → Store → Answer Store
  pub update_where : (AgentRun P → Bool) → (AgentRun P → AgentRun P) → Store → Answer (ℕ × Store)
  pub rows-select :
      (p : AgentRun P → Bool) (s : Store) {found : List (AgentRun P)}
      → select p s ≡ ok found
      → found ≡ keep p (rows s)
  pub rows-insert :
      (r : AgentRun P) (s : Store) {s' : Store}
      → insert r s ≡ ok s'
      → (rows s' ≡ rows s ++ r ∷ []) × (any (clashes r) (rows s) ≡ false)
  pub insert-integrity_error :
      (r : AgentRun P) (s : Store) → insert r s ≡ integrity_error → any (clashes r) (rows s) ≡ true
  pub rows-save :
      (r : AgentRun P) (s : Store) {s' : Store}
      → save r s ≡ ok s'
      → (rows s' ≡ map (λ x. if x.id == r.id then r else x) (rows s))
        × (any (λ x. not (x.id == r.id) && clashes r x) (rows s) ≡ false)
  pub rows-update_where :
      (p : AgentRun P → Bool) (f : AgentRun P → AgentRun P) (s : Store) {n : ℕ} {s' : Store}
      → update_where p f s ≡ ok (n, s')
      → (rows s' ≡ map (λ x. if p x then f x else x) (rows s)) × (n ≡ count p (rows s))
