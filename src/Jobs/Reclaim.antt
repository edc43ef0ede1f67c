-- ===== src/Jobs/Reclaim.antt =====
-- What a restart of the worker does with the messages that a lost worker left on the processing
-- list: `RedisQueue.reclaim`.
use ai_agents_enterprise.Prelude.{
  ℕ, zero, suc, ◌+◌, ◌≤◌, ◌<◌, ◌≡◌, refl, sym, ap, ◌∙◌, some, Option-cases, List, [], ◌∷◌, ◌++◌,
  append-nil, append_assoc, ltb, leb, length, subst, true, none, if◌then◌else◌, length-append, All,
  All-append, inl, inr, arith, Bool-cases,
}
use ai_agents_enterprise.Jobs.Redis.{jobs, processing, dead, Job, Redis, is_job}
use ai_agents_enterprise.Jobs.Queue.{
  bump, Route, requeue, bury, route_job, route, deliver, is_requeued, reclaim_loop, reclaim,
  max_attempts,
}

-- What a route adds to the job list and to the dead-letter list.
abbrev to_jobs : {R : Type 0} → Route R → List R
to_jobs (requeue r) = r ∷ []
to_jobs (bury r) = []

abbrev to_dead : {R : Type 0} → Route R → List R
to_dead (requeue r) = []
to_dead (bury r) = r ∷ []

-- What the routes of a list of texts add, in order.
abbrev pub requeued : {R A : Type 0} → (A → Route R) → List A → List R
requeued f [] = []
requeued f (x ∷ xs) = to_jobs (f x) ++ requeued f xs

abbrev pub buried : {R A : Type 0} → (A → Route R) → List A → List R
buried f [] = []
buried f (x ∷ xs) = to_dead (f x) ++ buried f xs

once : {R : Type 0} (x : Route R) → length (to_jobs x) + length (to_dead x) ≡ 1
once (requeue r) = refl
once (bury r) = refl

requeued-buried-length :
    {R A : Type 0} (f : A → Route R) (xs : List A)
    → length (requeued f xs) + length (buried f xs) ≡ length xs
requeued-buried-length f [] = omega arith
requeued-buried-length f (x ∷ xs) =
    rw (length-append (to_jobs (f x)) (requeued f xs), length-append (to_dead (f x)) (buried f xs))
      (omega (arith, once (f x), requeued-buried-length f xs))

requeued-ext :
    {R A : Type 0} (f g : A → Route R)
    → ((x : A) → f x ≡ g x)
    → (xs : List A) → requeued f xs ≡ requeued g xs
requeued-ext f g h [] = refl
requeued-ext f g h (x ∷ xs) = rw (h x, requeued-ext f g h xs)

buried-ext :
    {R A : Type 0} (f g : A → Route R)
    → ((x : A) → f x ≡ g x)
    → (xs : List A) → buried f xs ≡ buried g xs
buried-ext f g h [] = refl
buried-ext f g h (x ∷ xs) = rw (h x, buried-ext f g h xs)

is_requeued_lem : {R : Type 0} (x : Route R) → is_requeued x ≡ length (to_jobs x)
is_requeued_lem (requeue r) = refl
is_requeued_lem (bury r) = refl

below_zero : {A : Type 0} (xs : List A) → length xs < 0 → ⊥
below_zero xs h = omega arith

module _ {R P : Type 0} (redis : Redis R P) where
  open redis use {
    Server, items, lpush, rpush, lpop, dump, validate, items-rpush, lpop_empty, lpop_first,
    validate-dump, validate-is_job,
  }

  -- One delivery puts one text at the end of its list, and the processing list stays.
  deliver-jobs :
      (x : Route R) (s : Server) → items (deliver redis x s) jobs ≡ items s jobs ++ to_jobs x
  deliver-jobs (requeue r) s = items-rpush jobs r s jobs
  deliver-jobs (bury r) s = items-rpush dead r s jobs ∙ sym (append-nil (items s jobs))

  deliver-dead :
      (x : Route R) (s : Server) → items (deliver redis x s) dead ≡ items s dead ++ to_dead x
  deliver-dead (requeue r) s = items-rpush jobs r s dead ∙ sym (append-nil (items s dead))
  deliver-dead (bury r) s = items-rpush dead r s dead

  deliver-processing :
      (x : Route R) (s : Server) → items (deliver redis x s) processing ≡ items s processing
  deliver-processing (requeue r) s = items-rpush jobs r s processing
  deliver-processing (bury r) s = items-rpush dead r s processing

  -- The server after the orphans `batch` of a server `s` were routed.
  record Routed (batch : List R) (s s' : Server) : Type 0 where
    jobs_after : items s' jobs ≡ items s jobs ++ requeued (route redis) batch
    dead_after : items s' dead ≡ items s dead ++ buried (route redis) batch
    processing_after : items s' processing ≡ []

  Routed-step :
      (r : R) (rest : List R) (s s' u : Server)
      → items s' jobs ≡ items s jobs
      → items s' dead ≡ items s dead
      → Routed rest (deliver redis (route redis r) s') u
      → Routed (r ∷ rest) s u
  Routed-step r rest s s' u j d h =
      let x = route redis r in
      record {
        jobs_after =
            rw (h.jobs_after, deliver-jobs x s', j)
              (append_assoc (items s jobs) (to_jobs x) (requeued (route redis) rest));
        dead_after =
            rw (h.dead_after, deliver-dead x s', d)
              (append_assoc (items s dead) (to_dead x) (buried (route redis) rest));
        processing_after = h.processing_after;
      }

  reclaim_loop-Routed :
      (batch : List R) (fuel moved : ℕ) (s : Server)
      → items s processing ≡ batch
      → length batch < fuel
      → (s' : Server) × (reclaim_loop redis fuel moved s
          ≡ some (moved + length (requeued (route redis) batch), s'))
        × Routed batch s s'
  unfolding reclaim_loop
  reclaim_loop-Routed batch zero moved s p enough = absurd (below_zero batch enough)
  reclaim_loop-Routed [] (suc fuel) moved s p enough = (
    s,
    rw (reclaim_loop, lpop_empty processing s p) (ap (λ n. some (n, s)) (omega arith)),
    record {
      jobs_after = sym (append-nil (items s jobs));
      dead_after = sym (append-nil (items s dead));
      processing_after = p;
    },
  )
  reclaim_loop-Routed (r ∷ rest) (suc fuel) moved s p enough =
      let (s', popped, after) = lpop_first processing s r rest p in
      let x = route redis r in
      let (u, e, h) =
        reclaim_loop-Routed rest fuel (moved + is_requeued x) (deliver redis x s')
          (rw (deliver-processing x s', after processing)) (omega arith) in
      (
        u,
        rw (reclaim_loop, popped)
            (e
              ∙ ap (λ n. some (n, u))
                  (rw (length-append (to_jobs x) (requeued (route redis) rest), is_requeued_lem x)
                    (omega arith))),
        Routed-step r rest s s' u (after jobs) (after dead) h,
      )

  -- A text of a job that was given up by at most five workers.
  pub Retried : R → Type 0
  Retried raw = (job : Job P) × (validate raw ≡ some job) × (job.attempts ≤ 5)

  route_job-Retried :
      (job : Job P)
      → is_job job.kind job.run_id ≡ true
      → All Retried (to_jobs (route_job redis job))
  unfolding route_job Retried
  route_job-Retried job valid = elim (Bool-cases (ltb max_attempts (bump job).attempts)) [
    | inl over ↦ rw over tt
    | inr within ↦ rw within ((bump job, validate-dump (bump job) valid, ground arith), tt)
  ]

  route-Retried : (raw : R) → All Retried (to_jobs (route redis raw))
  unfolding route Retried
  route-Retried raw = elim (Option-cases (validate raw)) [
    | inl e ↦ rw (route, e) tt
    | inr (job, e) ↦ rw (route, e) (route_job-Retried job (validate-is_job raw e))
  ]

  requeued-Retried : (batch : List R) → All Retried (requeued (route redis) batch)
  requeued-Retried [] = tt
  requeued-Retried (r ∷ rest) =
      All-append Retried (to_jobs (route redis r)) (requeued (route redis) rest) (route-Retried r)
        (requeued-Retried rest)

  -- What becomes of one orphan.
  abbrev pub expected : R → Route R
  expected raw = elim (validate raw) [
    | none ↦ bury raw
    | some job ↦
        let again = dump (record {
          kind = job.kind;
          run_id = job.run_id;
          payload = job.payload;
          attempts = job.attempts + 1;
        }) in
        if leb job.attempts 4 then requeue again else bury again
  ]

  if_apart :
      (a : ℕ) (x : R)
      → (if ltb 5 (a + 1) then bury x else requeue x) ≡ (if leb a 4 then requeue x else bury x)
  if_apart a x = ground arith

  route-eq-expected : (raw : R) → route redis raw ≡ expected raw
  unfolding route route_job
  route-eq-expected raw = elim (Option-cases (validate raw)) [
    | inl e ↦ rw (route, expected, e) refl
    | inr (job, e) ↦ rw (route, expected, e) (if_apart job.attempts (dump (bump job)))
  ]

  -- The outcome of `reclaim` on a server, as a whole.
  pub record Reclaimed (s : Server) (moved : ℕ) (s' : Server) : Type 0 where
    pub jobs_after : items s' jobs ≡ items s jobs ++ requeued expected (items s processing)
    pub dead_after : items s' dead ≡ items s dead ++ buried expected (items s processing)
    pub processing_after : items s' processing ≡ []
    pub counted : moved ≡ length (requeued expected (items s processing))
    pub kept : moved + length (buried expected (items s processing)) ≡ length (items s processing)
    pub retried : All Retried (requeued expected (items s processing))

  -- `reclaim` ends. Afterwards the processing list is empty. The job list has grown, at its end and
  -- in order, by the orphans that read as a job with at most four attempts, each written again with
  -- one attempt more and all else as it was, and reads back as a job with at most five. The
  -- dead-letter list has grown in the same way by all other orphans: a text that is no job
  -- unchanged, a job with one attempt more. The result counts the former, and each orphan is in
  -- exactly one of the two.
  pub reclaim-Reclaimed :
      (s : Server)
      → (moved : ℕ) × (s' : Server) × (reclaim redis s ≡ some (moved, s')) × Reclaimed s moved s'
  unfolding reclaim
  reclaim-Reclaimed s =
      let batch = items s processing in
      let (s', e, h) = reclaim_loop-Routed batch (suc (length batch)) 0 s refl (omega arith) in
      let q = requeued-ext (route redis) expected route-eq-expected batch in
      let b = buried-ext (route redis) expected route-eq-expected batch in
      (
        length (requeued expected batch),
        s',
        e ∙ ap (λ n. some (n, s')) (rw (q) (omega arith)),
        record {
          jobs_after = h.jobs_after ∙ ap (λ l. items s jobs ++ l) q;
          dead_after = h.dead_after ∙ ap (λ l. items s dead ++ l) b;
          processing_after = h.processing_after;
          counted = refl;
          kept = requeued-buried-length expected batch;
          retried = subst (All Retried) q (requeued-Retried batch);
        },
      )
