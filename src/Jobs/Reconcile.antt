-- ===== src/Jobs/Reconcile.antt =====
-- The reconciliation at start-up: `reconcile_runs` on the run store and the queue.
use mathlib.Core.Option
use ai_agents_enterprise.Prelude.{
  ◌≤◌, arith, false, ℕ, zero, suc, ◌≡◌, refl, ap, ◌∙◌, Bool, true, Option, none, some, is_some,
  Option-cases, List, [], ◌∷◌, keep, map, take, length, length-map, length-take, min, inl, inr, ◌⊎◌,
  Dict, get, All, Bool-cases, if◌then◌else◌, ◌==◌, ◌||◌, eq_iff,
}
use ai_agents_enterprise.RunStore.Database.{count, AgentRun, Database}
use ai_agents_enterprise.RunStore.Operations.{RunRecord, to_record, is_nonterminal}
use ai_agents_enterprise.RunStore.Creation.{AnswersSelects}
use ai_agents_enterprise.RunStore.Listings.{insert_by, order_by, older, list_nonterminal_runs}
use ai_agents_enterprise.Jobs.Redis.{jobs, processing, dead, Redis, is_job, new_job}
use ai_agents_enterprise.Jobs.Queue.{Handler, enqueue, enqueue_runs, reconcile_runs}

module _ {ℓ κ} {A : Type ℓ} (Q : A → Type κ) (first : A → A → Bool) where
  insert_by-All : (x : A) (xs : List A) → Q x → All Q xs → All Q (insert_by first x xs)
  insert_by-All x [] q h = (q, tt)
  insert_by-All x (y ∷ ys) q h = elim (Bool-cases (first x y)) [
    | inl e ↦ rw e (q, h)
    | inr e ↦ rw e (h.0, insert_by-All x ys q h.1)
  ]

  order_by-All : (xs : List A) → All Q xs → All Q (order_by first xs)
  order_by-All [] h = tt
  order_by-All (x ∷ xs) h = insert_by-All x (order_by first xs) h.0 (order_by-All xs h.1)

module _ {ℓ} {A : Type ℓ} (first : A → A → Bool) where
  insert_by-length : (x : A) (xs : List A) → length (insert_by first x xs) ≡ suc (length xs)
  insert_by-length x [] = refl
  insert_by-length x (y ∷ ys) = elim (Bool-cases (first x y)) [
    | inl e ↦ rw e refl
    | inr e ↦ rw e (ap suc (insert_by-length x ys))
  ]

  order_by-length : (xs : List A) → length (order_by first xs) ≡ length xs
  order_by-length [] = refl
  order_by-length (x ∷ xs) = insert_by-length x (order_by first xs) ∙ ap suc (order_by-length xs)

module _ {ℓ} {A : Type ℓ} (p : A → Bool) (first : A → A → Bool) where
  insert_by-count : (x : A) (xs : List A) → count p (insert_by first x xs) ≡ count p (x ∷ xs)
  insert_by-count x [] = refl
  insert_by-count x (y ∷ ys) = elim (Bool-cases (first x y)) [
    | inl e ↦ rw e refl
    | inr e ↦
        rw e (swap (p x) (p y) (count p (insert_by first x ys)) (count p ys) (insert_by-count x ys))
  ]
    where
      swap :
          (b c : Bool) (m n : ℕ)
          → m ≡ (if b then suc n else n)
          → (if c then suc m else m)
            ≡ (if b then suc (if c then suc n else n) else (if c then suc n else n))
      swap true true m n h = ap suc h
      swap true false m n h = h
      swap false true m n h = ap suc h
      swap false false m n h = h

  order_by-count : (xs : List A) → count p (order_by first xs) ≡ count p xs
  order_by-count [] = refl
  order_by-count (x ∷ xs) =
      insert_by-count x (order_by first xs)
      ∙ ap (λ (n : ℕ). if p x then suc n else n) (order_by-count xs)

take-count : {A : Type 0} (p : A → Bool) (n : ℕ) (xs : List A) → count p (take n xs) ≤ count p xs
take-count p zero xs = ground arith
take-count p (suc n) [] = omega arith
take-count p (suc n) (x ∷ xs) = elim (Bool-cases (p x)) [
  | inl e ↦ rw (count, e) (omega (arith, take-count p n xs))
  | inr e ↦ rw (count, e) (take-count p n xs)
]

map-count :
    {A B : Type 0} (p : B → Bool) (f : A → B) (xs : List A)
    → count p (map f xs) ≡ count (λ x. p (f x)) xs
map-count p f [] = refl
map-count p f (x ∷ xs) = ap (λ (n : ℕ). if p (f x) then suc n else n) (map-count p f xs)

take-All : {A : Type 0} (Q : A → Type 0) (n : ℕ) (xs : List A) → All Q xs → All Q (take n xs)
take-All Q zero xs h = tt
take-All Q (suc n) [] h = tt
take-All Q (suc n) (x ∷ xs) h = (h.0, take-All Q n xs h.1)

-- A run that has not ended.
abbrev pub IsOpen : {P : Type 0} → RunRecord P → Type 0
IsOpen r = (r.status ≡ "pending") ⊎ (r.status ≡ "running")

keep-All :
    {A : Type 0} (p : A → Bool) (Q : A → Type 0)
    → ((x : A) → p x ≡ true → Q x)
    → (xs : List A) → All Q (keep p xs)
keep-All p Q h [] = tt
keep-All p Q h (x ∷ xs) = elim (Bool-cases (p x)) [
  | inl e ↦ rw (keep, e) (h x e, keep-All p Q h xs)
  | inr e ↦ rw (keep, e) (keep-All p Q h xs)
]

map-All :
    {A B : Type 0} (f : A → B) (Q : B → Type 0) (xs : List A)
    → All (λ x. Q (f x)) xs
    → All Q (map f xs)
map-All f Q [] h = tt
map-All f Q (x ∷ xs) h = (h.0, map-All f Q xs h.1)

is_nonterminal-IsOpen :
    {P : Type 0} (r : AgentRun P) → is_nonterminal r ≡ true → IsOpen (to_record r)
unfolding is_nonterminal to_record
is_nonterminal-IsOpen r h = elim (Bool-cases (r.status == "pending")) [
  | inl e ↦ inl ((eq_iff _ _).0 e)
  | inr e ↦ inr ((eq_iff _ _).0 (rw (is_nonterminal, e) at h))
]

module _ {R P W : Type 0} (redis : Redis R P) (handlers : Dict (Handler P W)) where
  open redis use {Server, items, lpush, dump, items-lpush}

  -- The runs that a registered handler can drive.
  abbrev pub is_driven : RunRecord P → Bool
  is_driven r = is_some (get handlers r.kind)

  -- The message for one run, and whether its kind and identifier are those of a job.
  abbrev pub message : RunRecord P → R
  message r = dump (record { kind = r.kind; run_id = r.run_id; payload = r.payload; attempts = 0 })

  abbrev pub fits : RunRecord P → Bool
  fits r = is_job r.kind r.run_id

  -- The runs before the first one that does not fit.
  abbrev pub leading : List (RunRecord P) → List (RunRecord P)
  leading [] = []
  leading (r ∷ runs) = if fits r then r ∷ leading runs else []

  -- How many, if all fit.
  abbrev pub total : List (RunRecord P) → Option ℕ
  total [] = some 0
  total (r ∷ runs) = if fits r then Option.map suc (total runs) else none

  -- The last enqueued message first.
  abbrev pub onto : List R → List R → List R
  onto [] old = old
  onto (r ∷ rs) old = onto rs (r ∷ old)

  record Enqueued (runs : List (RunRecord P)) (s : Server) (result : Option ℕ × Server)
      : Type 0 where
    counted : result.0 ≡ total runs
    jobs_after : items result.1 jobs ≡ onto (map message (leading runs)) (items s jobs)
    processing_after : items result.1 processing ≡ items s processing
    dead_after : items result.1 dead ≡ items s dead

  enqueue_runs-Enqueued :
      (runs : List (RunRecord P)) (s : Server)
      → Enqueued (keep is_driven runs) s (enqueue_runs redis handlers runs s)
  unfolding enqueue_runs enqueue new_job
  enqueue_runs-Enqueued [] s = record {
    counted = refl;
    jobs_after = refl;
    processing_after = refl;
    dead_after = refl;
  }
  enqueue_runs-Enqueued (r ∷ runs) s = elim (Option-cases (get handlers r.kind)) [
    | inl e ↦ rw (enqueue_runs, keep, e) (enqueue_runs-Enqueued runs s)
    | inr (h, e) ↦ elim (Bool-cases (fits r)) [
      | inr bad ↦
          rw (enqueue_runs, keep, e)
            (rw (new_job, bad)
              (record {
                counted = rw (total, bad) refl;
                jobs_after = rw (leading, bad) refl;
                processing_after = refl;
                dead_after = refl;
              }))
      | inl good ↦
          let ih = enqueue_runs-Enqueued runs (lpush jobs (message r) s) in
          rw (enqueue_runs, keep, e)
            (rw (new_job, good)
              (record {
                counted = rw (total, good) (ap (Option.map suc) ih.counted);
                jobs_after =
                    rw (leading, good)
                      (ih.jobs_after
                        ∙ ap (onto (map message (leading (keep is_driven runs))))
                            (items-lpush jobs (message r) s jobs));
                processing_after = ih.processing_after ∙ items-lpush jobs (message r) s processing;
                dead_after = ih.dead_after ∙ items-lpush jobs (message r) s dead;
              }))
    ]
  ]

  module _ (db : Database P) where
    open db use {Store, rows, select}

    -- The runs that are listed, and what became of them.
    pub record Reconciled (store : Store) (s : Server) (runs : List (RunRecord P))
        (result : Option ℕ × Server) : Type 0 where
      pub unfinished : All IsOpen runs
      pub listing :
          length runs
          ≡ min 1000
              (length (keep (λ r. r.status == "pending" || r.status == "running") (rows store)))
      pub drawn :
          (p : RunRecord P → Bool)
          → count p runs
            ≤ count
                (λ r. p (to_record r))
                (keep (λ r. r.status == "pending" || r.status == "running") (rows store))
      pub counted : result.0 ≡ total (keep is_driven runs)
      pub jobs_after :
          items result.1 jobs ≡ onto (map message (leading (keep is_driven runs))) (items s jobs)
      pub processing_after : items result.1 processing ≡ items s processing
      pub dead_after : items result.1 dead ≡ items s dead

    -- While the store answers, `reconcile_runs` goes through the listing of the runs that are
    -- pending or running, which has as many entries as the store has such runs, or a thousand if
    -- there are more, each of them such a run of the store, and none more often than there. It puts
    -- one fresh message on the job list for each run of a registered kind, in order and before all
    -- messages that were there, and none for any other run, and returns how many. A kind or
    -- identifier that no job may have ends it with an exception, with the messages of the runs
    -- before it on the list. The processing and the dead-letter lists stay as they were.
    pub reconcile_runs-Reconciled :
        (store : Store) (s : Server)
        → AnswersSelects db
        → Reconciled store s
            (list_nonterminal_runs db 1000 store)
            (reconcile_runs redis db handlers store s)
    unfolding reconcile_runs list_nonterminal_runs is_nonterminal
    reconcile_runs-Reconciled store s up =
        let (found, e) = up is_nonterminal store in
        let kept = db.rows-select is_nonterminal store e in
        let ordered = order_by older found in
        let q = enqueue_runs-Enqueued (list_nonterminal_runs db 1000 store) s in
        record {
          unfinished =
              rw (list_nonterminal_runs, e)
                (map-All to_record IsOpen (take 1000 ordered) (
                  take-All _ 1000 ordered (
                    order_by-All _ older found
                      (rw kept (keep-All is_nonterminal _ is_nonterminal-IsOpen (rows store))))));
          listing =
              rw (list_nonterminal_runs, e)
                (length-map to_record (take 1000 ordered)
                  ∙ length-take 1000 ordered
                  ∙ ap (min 1000) (order_by-length older found ∙ ap length kept));
          drawn = λ p.
              rw (list_nonterminal_runs, e)
                (rw (map-count p to_record (take 1000 ordered)) (
                  omega (
                    arith,
                    take-count (λ r. p (to_record r)) 1000 ordered,
                    order_by-count (λ r. p (to_record r)) older found,
                    ap (count (λ r. p (to_record r))) kept,
                  )));
          counted = q.counted;
          jobs_after = q.jobs_after;
          processing_after = q.processing_after;
          dead_after = q.dead_after;
        }
