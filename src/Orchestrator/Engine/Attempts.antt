-- ===== src/Orchestrator/Engine/Attempts.antt =====
-- The retry loop of `_drive`: what it appends to `run.attempts`, and what it leaves alone.
use ai_agents_enterprise.Prelude.{
  ℕ, zero, suc, ◌+◌, ◌-◌, ◌≤◌, ◌<◌, String, ◌≡◌, refl, sym, ◌∙◌, Bool, true, false, Option, List,
  [], ◌∷◌, ◌++◌, append-nil, append_assoc, Dict, nat_eq, if◌then◌else◌, arith, All, ◌≢◌, ◌⊎◌, inl,
  inr, Bool-cases, nat_eq_iff,
}
use ai_agents_enterprise.Orchestrator.Types.{
  StepStatus, StepAttempt, WorkflowRun, Outcome, returned, raised, Step, Runtime,
}
use ai_agents_enterprise.Orchestrator.Engine.{log_failure, pause, try_step}

module _ {V : Type 0} where
  abbrev pub HasNotFailed : StepAttempt V → Type 0
  HasNotFailed a = a.status ≢ StepStatus.failed

  Outcome-cases :
      (o : Outcome V) → ((u : Option (Dict V)) × (o ≡ returned u)) ⊎ ((e : String) × (o ≡ raised e))
  Outcome-cases (returned u) = inl (u, refl)
  Outcome-cases (raised e) = inr (e, refl)

module _ {V W : Type 0} where
  abbrev IsLast : Step V W → Bool → ℕ → List (StepAttempt V) → StepStatus → Type 0 → Type 0
  IsLast step ok n rest StepStatus.succeeded more = (ok ≡ true) × (rest ≡ [])
  IsLast step ok n rest StepStatus.failed more =
      (ok ≡ false) × (rest ≡ []) × (n ≡ step.max_attempts)
  IsLast step ok n rest StepStatus.retried more = (n < step.max_attempts) × more

  -- The attempts from number `n` on: failed ones that are retried, numbered one by one, and then
  -- a success, or a failure that has the number `max_attempts`.
  abbrev pub IsTried : Step V W → Bool → ℕ → List (StepAttempt V) → Type 0
  IsTried step ok n [] = (ok ≡ false) × (step.max_attempts < n)
  IsTried step ok n (a ∷ rest) =
      (a.step ≡ step.name)
      × (a.attempt ≡ n)
      × (n ≤ step.max_attempts)
      × IsLast step ok n rest a.status (IsTried step ok (suc n) rest)

  pub record Tried (step : Step V W) (n : ℕ) (run : WorkflowRun V)
      (result : Bool × WorkflowRun V × W) : Type 0 where
    pub new : List (StepAttempt V)
    pub appended : result.1.attempts ≡ run.attempts ++ new
    pub tried : IsTried step result.0 n new
    pub frame : result.1 ≡ record run { state = result.1.state; attempts = result.1.attempts }

  -- Past the last attempt there is none.
  IsTried-nil_past :
      (step : Step V W) (ok : Bool) (n : ℕ) (new : List (StepAttempt V))
      → step.max_attempts < n
      → IsTried step ok n new
      → (ok ≡ false) × (new ≡ [])
  IsTried-nil_past step ok n [] h t = (t.0, refl)
  IsTried-nil_past step ok n (a ∷ new) h t = absurd (omega arith)

  failure_status :
      (step : Step V W) (ok : Bool) (n : ℕ) (new : List (StepAttempt V))
      → n ≤ step.max_attempts
      → IsTried step ok (suc n) new
      → IsLast step ok n new
          (if nat_eq n step.max_attempts then StepStatus.failed else StepStatus.retried)
          (IsTried step ok (suc n) new)
  failure_status step ok n new h t = elim (Bool-cases (nat_eq n step.max_attempts)) [
    | inl e ↦
        let last : n ≡ step.max_attempts = (nat_eq_iff _ _).0 e in
        let (failed, none_left) = IsTried-nil_past step ok (suc n) new (omega arith) t in
        rw e (failed, none_left, last)
    | inr e ↦ rw e (ground arith, t)
  ]

  -- The retry loop from attempt `n` on, with the rest of `max_attempts` left: it appends to the log
  -- attempts of this step alone, numbered one by one from `n`, each a failure that is retried, up
  -- to a success, or to a failure with the number `max_attempts`; it reports success exactly for
  -- the former; and it changes nothing of the run but the state and the log.
  pub try_step-Tried :
      (rt : Runtime W) (step : Step V W) (left n : ℕ) (run : WorkflowRun V) (w : W)
      → n + left ≡ step.max_attempts + 1
      → Tried step n run (try_step rt step left n run w)
  unfolding try_step
  try_step-Tried rt step zero n run w h = record {
    new = [];
    appended = sym (append-nil run.attempts);
    tried = (refl, omega arith);
    frame = refl;
  }
  try_step-Tried rt step (suc left) n run w h = elim (Outcome-cases (step.run run.state w).0) [
    | inl (u, e) ↦
        rw (e, try_step)
          (record {
            new = _;
            appended = refl;
            tried = (refl, refl, omega arith, (refl, refl));
            frame = refl;
          })
    | inr (msg, e) ↦
        let w' : W = (step.run run.state w).1 in
        let run' : WorkflowRun V =
          log_failure step n (rt.monotonic_ms w' - rt.monotonic_ms w) msg run in
        let r : Tried step (suc n) run' (try_step rt step left (suc n) run' (pause rt step n w')) =
          try_step-Tried rt step left (suc n) run' (pause rt step n w') (omega arith) in
        rw (e, try_step)
          (record {
            new = _ ∷ r.new;
            appended = r.appended ∙ append_assoc run.attempts _ r.new;
            tried = (refl, refl, omega arith, failure_status step _ n r.new (omega arith) r.tried);
            frame = r.frame;
          })
  ]

module _ {V W : Type 0} (step : Step V W) where
  IsLast-named :
      (ok : Bool) (n : ℕ) (rest : List (StepAttempt V)) (status : StepStatus) {more : Type 0}
      → (more → All (λ a. a.step ≡ step.name) rest)
      → IsLast step ok n rest status more
      → All (λ a. a.step ≡ step.name) rest
  IsLast-named ok n rest StepStatus.succeeded f h = rw h.1 tt
  IsLast-named ok n rest StepStatus.failed f h = rw h.1 tt
  IsLast-named ok n rest StepStatus.retried f h = f h.1

  -- All of them carry the step's name.
  pub IsTried-named :
      (ok : Bool) (n : ℕ) (new : List (StepAttempt V))
      → IsTried step ok n new
      → All (λ a. a.step ≡ step.name) new
  IsTried-named ok n [] t = tt
  IsTried-named ok n (a ∷ new) t =
      (t.0, IsLast-named ok n new a.status (IsTried-named ok (suc n) new) t.3)

  IsLast-HasNotFailed :
      (n : ℕ) (rest : List (StepAttempt V)) (status : StepStatus) {more : Type 0}
      → (more → All HasNotFailed rest)
      → IsLast step true n rest status more
      → (status ≢ StepStatus.failed) × All HasNotFailed rest
  IsLast-HasNotFailed n rest StepStatus.succeeded f h = (λ e. cc, rw h.1 tt)
  IsLast-HasNotFailed n rest StepStatus.failed f h = cc
  IsLast-HasNotFailed n rest StepStatus.retried f h = (λ e. cc, f h.1)

  -- A step that succeeded has no attempt of status `failed`.
  pub IsTried-HasNotFailed :
      (n : ℕ) (new : List (StepAttempt V)) → IsTried step true n new → All HasNotFailed new
  IsTried-HasNotFailed n [] t = tt
  IsTried-HasNotFailed n (a ∷ new) t =
      IsLast-HasNotFailed n new a.status (IsTried-HasNotFailed (suc n) new) t.3
