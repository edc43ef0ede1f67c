-- ===== src/Jobs/Redis.antt =====
-- What queue.py takes from outside: the Redis server, as the list commands that it calls with their
-- documented effects on the lists, and the JSON form of a job, which pydantic writes and reads.
use ai_agents_enterprise.Prelude.{
  ℕ, String, ◌≡◌, Bool, true, false, ◌&&◌, ◌||◌, Option, none, some, List, [], ◌∷◌, ◌++◌, leb,
  nat_eq, length, if◌then◌else◌,
}
use Prim.Native.Char.{code}

-- `workbench:jobs`, `workbench:jobs:processing` and `workbench:jobs:dead`.
pub data Key : Type 0 where
  jobs processing dead : Key

abbrev pub same_key : Key → Key → Bool
same_key jobs jobs = true
same_key processing processing = true
same_key dead dead = true
same_key _ _ = false

pub record Job (P : Type 0) : Type 0 where
  pub kind : String
  pub run_id : String
  pub payload : P
  pub attempts : ℕ

-- The code points of a text.
unfoldable pub codes : String → List ℕ
codes String.[] = []
codes (String.◌∷◌ c s) = code c ∷ codes s

abbrev pub within : (first last : ℕ) → ℕ → Bool
within first last c = leb first c && leb c last

abbrev pub all_of : (ℕ → Bool) → List ℕ → Bool
all_of p [] = true
all_of p (c ∷ cs) = p c && all_of p cs

-- `[a-z0-9_]` and `[A-Za-z0-9_-]`
abbrev pub is_kind_char : ℕ → Bool
is_kind_char c = within 97 122 c || (within 48 57 c || nat_eq c 95)

abbrev pub is_run_id_char : ℕ → Bool
is_run_id_char c = within 65 90 c || (is_kind_char c || nat_eq c 45)

-- `^[a-z][a-z0-9_]{0,31}$`
abbrev pub matches_kind : List ℕ → Bool
matches_kind [] = false
matches_kind (c ∷ cs) = within 97 122 c && (leb (length cs) 31 && all_of is_kind_char cs)

-- `^[A-Za-z0-9_-]{1,64}$`
abbrev pub matches_run_id : List ℕ → Bool
matches_run_id cs = leb 1 (length cs) && (leb (length cs) 64 && all_of is_run_id_char cs)

-- The field patterns of `Job`.
unfoldable pub is_job : (kind run_id : String) → Bool
is_job kind run_id = matches_kind (codes kind) && matches_run_id (codes run_id)

-- `Job(kind=..., run_id=..., payload=...)`: `none` is the ValidationError.
unfoldable pub new_job : {P : Type 0} → (kind run_id : String) → P → Option (Job P)
new_job kind run_id payload =
    if is_job kind run_id
    then some (record { kind = kind; run_id = run_id; payload = payload; attempts = 0 })
    else none

-- The first occurrence of a text is deleted (LREM with count 1).
abbrev pub delete_first {ℓ} : {A : Type ℓ} → (A → A → Bool) → A → List A → List A
delete_first eq x [] = []
delete_first eq x (y ∷ ys) = let rest = delete_first eq x ys in if eq y x then ys else y ∷ rest

-- The head of a list is its left end. `R` is the type of raw messages.
pub record Redis (R P : Type 0) : Type 1 where
  pub Server : Type 0
  pub items : Server → Key → List R
  pub lpush : Key → R → Server → Server
  pub rpush : Key → R → Server → Server
  pub lpop : Key → Server → Option (R × Server)
  -- BLMOVE from the right end of the first list to the left end of the second; `none` is the
  -- timeout
  pub blmove : Key → Key → Server → Option (R × Server)
  pub lrem : Key → R → Server → Server
  pub raw_eq : R → R → Bool
  pub raw_eq_refl : (r : R) → raw_eq r r ≡ true
  -- Job.model_dump_json and Job.model_validate_json
  pub dump : Job P → R
  pub validate : R → Option (Job P)
  -- of an instance that validation let through, and only such are read
  pub validate-dump : (j : Job P) → is_job j.kind j.run_id ≡ true → validate (dump j) ≡ some j
  pub validate-is_job : (r : R) {j : Job P} → validate r ≡ some j → is_job j.kind j.run_id ≡ true
  pub items-lpush :
      (k : Key) (r : R) (s : Server) (j : Key)
      → items (lpush k r s) j ≡ (if same_key k j then r ∷ items s j else items s j)
  pub items-rpush :
      (k : Key) (r : R) (s : Server) (j : Key)
      → items (rpush k r s) j ≡ (if same_key k j then items s j ++ r ∷ [] else items s j)
  pub lpop_empty : (k : Key) (s : Server) → items s k ≡ [] → lpop k s ≡ none
  pub lpop_first :
      (k : Key) (s : Server) (r : R) (rest : List R)
      → items s k ≡ r ∷ rest
      → (s' : Server) × (lpop k s ≡ some (r, s'))
        × ((j : Key) → items s' j ≡ (if same_key k j then rest else items s j))
  pub items-blmove :
      (s : Server) {r : R} {s' : Server}
      → blmove jobs processing s ≡ some (r, s')
      → (rest : List R) × (items s jobs ≡ rest ++ r ∷ [])
        × (items s' jobs ≡ rest)
        × (items s' processing ≡ r ∷ items s processing)
        × (items s' dead ≡ items s dead)
  pub items-lrem :
      (k : Key) (r : R) (s : Server) (j : Key)
      → items (lrem k r s) j
        ≡ (if same_key k j then delete_first raw_eq r (items s j) else items s j)
