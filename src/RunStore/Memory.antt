-- ===== src/RunStore/Memory.antt =====
-- A table in memory that meets the laws of `Database`, over any payload.
use ai_agents_enterprise.Prelude.{
  ℕ, ◌≡◌, refl, Bool, true, false, List, [], ◌∷◌, ◌++◌, map, keep, any, ◌==◌, ◌&&◌, not,
  if◌then◌else◌, arith,
}
use ai_agents_enterprise.RunStore.Database.{
  AgentRun, Answer, ok, integrity_error, Database, count, clashes,
}
use ai_agents_enterprise.RunStore.Claims.{AnswersUpdates}
use ai_agents_enterprise.RunStore.Creation.{AnswersSelects}

abbrev pub insert : {P : Type 0} → AgentRun P → List (AgentRun P) → Answer (List (AgentRun P))
insert r s = if any (clashes r) s then integrity_error else ok (s ++ r ∷ [])

abbrev pub save : {P : Type 0} → AgentRun P → List (AgentRun P) → Answer (List (AgentRun P))
save r s =
    if any (λ x. not (x.id == r.id) && clashes r x) s
    then integrity_error
    else ok (map (λ x. if x.id == r.id then r else x) s)

pub rows-insert :
    {P : Type 0}
    → (r : AgentRun P) (s : List (AgentRun P)) {s' : List (AgentRun P)} → insert r s ≡ ok s'
    → (s' ≡ s ++ r ∷ []) × (any (clashes r) s ≡ false)
rows-insert r s h = ground arith

pub rows-save :
    {P : Type 0}
    → (r : AgentRun P) (s : List (AgentRun P)) {s' : List (AgentRun P)} → save r s ≡ ok s'
    → (s' ≡ map (λ x. if x.id == r.id then r else x) s)
      × (any (λ x. not (x.id == r.id) && clashes r x) s ≡ false)
rows-save r s h = ground arith

pub rows-select :
    {P : Type 0}
    → (p : AgentRun P → Bool) (s : List (AgentRun P)) {found : List (AgentRun P)}
    → ◌≡◌ {A = Answer (List (AgentRun P))} (ok (keep p s)) (ok found)
    → found ≡ keep p s
rows-select p s h = cc

pub insert-integrity_error :
    {P : Type 0}
    → (r : AgentRun P) (s : List (AgentRun P)) → insert r s ≡ integrity_error
    → any (clashes r) s ≡ true
insert-integrity_error r s h = ground arith

pub rows-update_where :
    {P : Type 0}
    → (p : AgentRun P → Bool) (f : AgentRun P → AgentRun P) (s : List (AgentRun P)) {n : ℕ}
      {s' : List (AgentRun P)}
    → ◌≡◌ {A = Answer (ℕ × List (AgentRun P))}
        (ok (count p s, map (λ x. if p x then f x else x) s))
        (ok (n, s'))
    → (s' ≡ map (λ x. if p x then f x else x) s) × (n ≡ count p s)
rows-update_where p f s h = ground arith

abbrev pub table_of : (P : Type 0) → Database P
table_of P = record {
  Store = List (AgentRun P);
  rows = λ s. s;
  select = λ p s. ok (keep p s);
  insert = insert;
  save = save;
  update_where = λ p f s. ok (count p s, map (λ x. if p x then f x else x) s);
  rows-select = rows-select;
  rows-insert = rows-insert;
  insert-integrity_error = insert-integrity_error;
  rows-save = rows-save;
  rows-update_where = rows-update_where;
}

pub answers_updates : (P : Type 0) → AnswersUpdates (table_of P)
answers_updates P p f s = (_, _, refl)

pub answers_selects : (P : Type 0) → AnswersSelects (table_of P)
answers_selects P p s = (_, refl)
