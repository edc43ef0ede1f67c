-- ===== src/Jobs/Memory.antt =====
-- A server of three lists in memory, over any payload with a reflexive test of equality.
use ai_agents_enterprise.Prelude.{
  some_injective, none_ne_some, ℕ, ◌==◌, eq_refl, ◌≡◌, refl, sym, ap, ◌∙◌, Bool, true, false, ◌&&◌,
  Option, none, some, Option-cases, List, [], ◌∷◌, ◌++◌, nat_eq, inl, inr, arith, if◌then◌else◌,
  subst, Bool-cases,
}
use ai_agents_enterprise.Jobs.Redis.{
  Key, jobs, processing, dead, same_key, Job, Redis, delete_first, is_job,
}

-- A raw message: the text of a job, or one that does not read as a job.
abbrev pub Raw : Type 0 → Type 0
Raw P = Option (Job P)

abbrev pub Lists : Type 0 → Type 0
Lists P = Key → List (Raw P)

abbrev pub same_raw : {P : Type 0} → (P → P → Bool) → Raw P → Raw P → Bool
same_raw eq none none = true
same_raw eq none (some k) = false
same_raw eq (some j) none = false
same_raw eq (some j) (some k) =
    (j.kind == k.kind)
    && (j.run_id == k.run_id)
    && eq j.payload k.payload
    && nat_eq j.attempts k.attempts

nat_eq_same : (n : ℕ) → nat_eq n n ≡ true
nat_eq_same n = ground arith

pub same_raw_refl :
    {P : Type 0} (eq : P → P → Bool)
    → ((p : P) → eq p p ≡ true)
    → (r : Raw P) → same_raw eq r r ≡ true
same_raw_refl eq h none = refl
same_raw_refl eq h (some j) =
    rw (eq_refl j.kind, eq_refl j.run_id, h j.payload, nat_eq_same j.attempts)

module _ {P : Type 0} where
  -- A list without its last item, and that item.
  abbrev pub unsnoc : List (Raw P) → Option (List (Raw P) × (Raw P))
  unsnoc [] = none
  unsnoc (x ∷ xs) = elim (unsnoc xs) [ none ↦ some ([], x) | some (rest, r) ↦ some (x ∷ rest, r) ]

  unsnoc-none : (xs : List (Raw P)) → unsnoc xs ≡ none → xs ≡ []
  unsnoc-none [] e = refl
  unsnoc-none (x ∷ xs) e = ground arith

  unsnoc-some :
      (xs rest : List (Raw P)) (r : (Raw P)) → unsnoc xs ≡ some (rest, r) → xs ≡ rest ++ r ∷ []
  unsnoc-some [] rest r e = cc
  unsnoc-some (x ∷ xs) rest r e = elim (Option-cases (unsnoc xs)) [
    | inl n ↦
        let same = some_injective (rw (unsnoc, n) at e) in
        rw (unsnoc-none xs n, ← ap (λ p. p.0) same, ← ap (λ p. p.1) same)
    | inr ((ys, y), n) ↦
        let same = some_injective (rw (unsnoc, n) at e) in
        rw (unsnoc-some xs ys y n, ← ap (λ p. p.0) same, ← ap (λ p. p.1) same)
  ]

  abbrev pub pop_left : Key → (Lists P) → Option ((Raw P) × (Lists P))
  pop_left k s = elim (s k) [
    | [] ↦ none
    | r ∷ rest ↦ some (r, λ j. if same_key k j then rest else s j)
  ]

  abbrev pub moved_to : Key → Key → List (Raw P) → (Raw P) → (Lists P) → (Lists P)
  moved_to a b rest r s = λ j.
      if same_key b j
      then r ∷ (if same_key a j then rest else s j)
      else if same_key a j
      then rest
      else s j

  abbrev pub move : Key → Key → (Lists P) → Option ((Raw P) × (Lists P))
  move a b s = elim (unsnoc (s a)) [
    | none ↦ none
    | some (rest, r) ↦ some (r, moved_to a b rest r s)
  ]

  pub move-blmove :
      (s : (Lists P)) {r : (Raw P)} {s' : (Lists P)}
      → move jobs processing s ≡ some (r, s')
      → (rest : List (Raw P)) × (s jobs ≡ rest ++ r ∷ [])
        × (s' jobs ≡ rest)
        × (s' processing ≡ r ∷ s processing)
        × (s' dead ≡ s dead)
  move-blmove s {r} {s'} e = elim (Option-cases (unsnoc (s jobs))) [
    | inl n ↦ absurd (none_ne_some (rw (move, n) at e))
    | inr ((rest, last), n) ↦
        let same = some_injective (rw (move, n) at e) in
        let at_r = ap (λ p. p.0) same in
        let at_s = ap (λ p. p.1) same in
        (
          rest,
          rw (← at_r) (unsnoc-some (s jobs) rest last n),
          sym (ap (λ t. t jobs) at_s),
          sym (ap (λ t. t processing) at_s) ∙ ap (λ x. x ∷ s processing) at_r,
          sym (ap (λ t. t dead) at_s),
        )
  ]

-- A job with fields outside their patterns does not read as one.
abbrev pub read : {P : Type 0} → Raw P → Option (Job P)
read none = none
read (some j) = if is_job j.kind j.run_id then some j else none

pub read-some : {P : Type 0} (j : Job P) → is_job j.kind j.run_id ≡ true → read (some j) ≡ some j
read-some j h = rw h refl

pub read-is_job :
    {P : Type 0} (r : Raw P) {j : Job P} → read r ≡ some j → is_job j.kind j.run_id ≡ true
read-is_job none e = absurd (none_ne_some e)
read-is_job (some k) {j} e = elim (Bool-cases (is_job k.kind k.run_id)) [
  | inl h ↦
      let same : k ≡ j = some_injective (rw h at e) in
      subst (λ x. is_job x.kind x.run_id ≡ true) same h
  | inr h ↦ absurd (none_ne_some (rw h at e))
]

abbrev pub redis_of : {P : Type 0} (eq : P → P → Bool) → ((p : P) → eq p p ≡ true) → Redis (Raw P) P
redis_of {P} eq h = record {
  Server = Lists P;
  items = λ s k. s k;
  lpush = λ k r s j. if same_key k j then r ∷ s j else s j;
  rpush = λ k r s j. if same_key k j then s j ++ r ∷ [] else s j;
  lpop = pop_left;
  blmove = move;
  lrem = λ k r s j. if same_key k j then delete_first (same_raw eq) r (s j) else s j;
  raw_eq = same_raw eq;
  raw_eq_refl = same_raw_refl eq h;
  dump = λ j. some j;
  validate = read;
  validate-dump = λ j h. read-some j h;
  validate-is_job = λ r e. read-is_job r e;
  items-lpush = λ k r s j. refl;
  items-rpush = λ k r s j. refl;
  lpop_empty = λ k s e. rw (pop_left, e);
  lpop_first = λ k s r rest e. (_, rw (pop_left, e), λ j. refl);
  items-blmove = λ s e. move-blmove s e;
  items-lrem = λ k r s j. refl;
}
