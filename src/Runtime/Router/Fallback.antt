-- ===== src/Runtime/Router/Fallback.antt =====
-- How `ModelRouter.step` falls back along the chain, and which providers may answer.
use ai_agents_enterprise.Prelude.{
  ℕ, String, ◌≡◌, refl, sym, ap, ◌∙◌, Bool, true, false, ◌||◌, not, none, some, Option-cases,
  Bool-cases, List, [], ◌∷◌, ◌++◌, append_assoc, append-nil, keep, All, inl, inr, ◌==◌, eq_refl,
  Dict, get, get-remove,
}
use ai_agents_enterprise.Runtime.Types.{Complexity, simple, standard, complex, judge, StepOutput}
use ai_agents_enterprise.Runtime.Router.{
  ModelRouter, Candidate, Clients, Turn, answered, no_provider, key_error, model_of, mark_unhealthy,
  mark_healthy, is_healthy, candidates, or_chain, chain, ordered, is_enabled, fill, call_provider,
  try_candidates, step, Provider,
}

module _ {A W : Type 0} (clients : Clients A W) (registry : Dict Provider) where
  -- The provider and the model of the candidates of a list.
  abbrev pub labels : List Candidate → List (String × String)
  labels [] = []
  labels (c ∷ cs) = elim (model_of clients registry c) [
    | none ↦ labels cs
    | some (provider, model) ↦ (c.0, model) ∷ labels cs
  ]

  pub record Answered (cs : List Candidate) (tried : List (String × String)) (out : StepOutput A)
      (after : ModelRouter) : Type 0 where
    pub before : List Candidate
    pub chosen : Candidate
    pub rest : List Candidate
    pub split : cs ≡ before ++ chosen ∷ rest
    pub attempts : out.attempts ≡ tried ++ labels before
    pub provider : out.provider ≡ chosen.0
    pub model : (p : Provider) × (model_of clients registry chosen ≡ some (p, out.model))
    pub healthy : get after.unhealthy_until chosen.0 ≡ none

  -- The result of a turn over the candidates `cs`, with the attempts `tried` before them.
  abbrev pub FellBack : List Candidate → List (String × String) → Turn A → ModelRouter → Type 0
  FellBack cs tried (answered out) after = Answered cs tried out after
  FellBack cs tried (no_provider complexity attempts) after = attempts ≡ tried ++ labels cs
  FellBack cs tried key_error after =
      (before rest : List Candidate) × (c : Candidate) × (cs ≡ before ++ c ∷ rest)
      × (model_of clients registry c ≡ none)

  FellBack-cons :
      (c : Candidate) (cs : List Candidate) (tried : List (String × String)) (p : Provider)
      (model : String)
      → model_of clients registry c ≡ some (p, model)
      → (turn : Turn A) (after : ModelRouter) → FellBack cs (tried ++ (c.0, model) ∷ []) turn after
      → FellBack (c ∷ cs) tried turn after
  FellBack-cons c cs tried p model e (answered out) after h = record {
    before = c ∷ h.before;
    chosen = h.chosen;
    rest = h.rest;
    split = ap (λ xs. c ∷ xs) h.split;
    attempts =
        h.attempts ∙ rw (labels, e) (append_assoc tried ((c.0, model) ∷ []) (labels h.before));
    provider = h.provider;
    model = h.model;
    healthy = h.healthy;
  }
  FellBack-cons c cs tried p model e (no_provider complexity attempts) after h =
      h ∙ rw (labels, e) (append_assoc tried ((c.0, model) ∷ []) (labels cs))
  FellBack-cons c cs tried p model e key_error after (before, rest, d, split, missing) =
      (c ∷ before, rest, d, ap (λ xs. c ∷ xs) split, missing)

module _ {A W : Type 0} (clients : Clients A W) where
  try_candidates-FellBack :
      (complexity : Complexity) (cs : List Candidate) (tried : List (String × String))
      (router : ModelRouter) (w : W)
      → FellBack clients router.registry cs tried
          (try_candidates clients complexity cs tried router w).0
          (try_candidates clients complexity cs tried router w).1
  unfolding try_candidates mark_unhealthy mark_healthy fill
  try_candidates-FellBack complexity [] tried router w = sym (append-nil tried)
  try_candidates-FellBack complexity (c ∷ cs) tried router w =
      elim (Option-cases (model_of clients router.registry c)) [
        | inl e ↦ rw (try_candidates, e) ([], cs, c, refl, e)
        | inr ((p, model), e) ↦
            rw (try_candidates, e)
              (elim (Option-cases (call_provider clients p model complexity w).0) [
                | inl failed ↦ rw failed (
                    FellBack-cons clients router.registry c cs tried p model e _ _ (
                      try_candidates-FellBack complexity cs (tried ++ (c.0, model) ∷ [])
                        (mark_unhealthy router
                          (clients.monotonic_us (call_provider clients p model complexity w).1) c.0)
                        (call_provider clients p model complexity w).1))
                | inr (out, ok) ↦ rw ok (record {
                  before = [];
                  chosen = c;
                  rest = cs;
                  split = refl;
                  attempts = sym (append-nil tried);
                  provider = refl;
                  model = (p, e);
                  healthy = rw (get-remove router.unhealthy_until c.0 c.0, eq_refl c.0);
                })
              ])
      ]

  -- One turn asks its candidates in order until one answers. The answer carries the provider and
  -- the model of the candidate that gave it, its attempts are exactly the candidates before that
  -- one, and that provider is out of cooldown afterwards. No provider answers only when each
  -- candidate was tried. A missing model role is the only other end.
  pub step-FellBack :
      (via_local : Bool) (complexity : Complexity) (router : ModelRouter) (w : W)
      → FellBack clients router.registry
          (candidates router (clients.monotonic_us w) (chain router via_local complexity))
          []
          (step clients via_local complexity router w).0
          (step clients via_local complexity router w).1
  unfolding step
  step-FellBack via_local complexity router w =
      try_candidates-FellBack complexity
        (candidates router (clients.monotonic_us w) (chain router via_local complexity)) [] router w

-- The providers that the cost policy admits for a complexity.
abbrev pub is_admitted : (via_local : Bool) → Complexity → (provider : String) → Bool
is_admitted via_local simple name = not (name == "openai")
is_admitted via_local standard name = via_local || not (name == "local")
is_admitted via_local complex name = (name == "anthropic") || (name == "openai")
is_admitted via_local judge name = (name == "anthropic") || (name == "openai")

module _ (via_local : Bool) (complexity : Complexity) (registry : Dict Provider) where
  abbrev IsAdmitted : Candidate → Type 0
  IsAdmitted c = is_admitted via_local complexity c.0 ≡ true

  abbrev pub IsUsable : Candidate → Type 0
  IsUsable c = IsAdmitted c × (is_enabled registry c ≡ true)

  keep-IsUsable :
      (cs : List Candidate) → All IsAdmitted cs → All IsUsable (keep (is_enabled registry) cs)
  keep-IsUsable [] h = tt
  keep-IsUsable (c ∷ cs) h = elim (Bool-cases (is_enabled registry c)) [
    | inl e ↦ rw (keep, e) ((h.0, e), keep-IsUsable cs h.1)
    | inr e ↦ rw (keep, e) (keep-IsUsable cs h.1)
  ]

ordered-IsAdmitted :
    (via_local : Bool) (complexity : Complexity) (registry : Dict Provider)
    → All (IsAdmitted via_local complexity registry) (ordered via_local complexity)
ordered-IsAdmitted true simple r = (refl, (refl, (refl, (refl, tt))))
ordered-IsAdmitted false simple r = (refl, (refl, (refl, (refl, tt))))
ordered-IsAdmitted true standard r = (refl, (refl, (refl, (refl, (refl, tt)))))
ordered-IsAdmitted false standard r = (refl, (refl, (refl, (refl, tt))))
ordered-IsAdmitted via_local complex r = (refl, (refl, tt))
ordered-IsAdmitted via_local judge r = (refl, (refl, tt))

module _ (P : Candidate → Type 0) where
  All-keep : (p : Candidate → Bool) (cs : List Candidate) → All P cs → All P (keep p cs)
  All-keep p [] h = tt
  All-keep p (c ∷ cs) h = elim (Bool-cases (p c)) [
    | inl e ↦ rw (keep, e) (h.0, All-keep p cs h.1)
    | inr e ↦ rw (keep, e) (All-keep p cs h.1)
  ]

  All-or_chain : (kept cs : List Candidate) → All P kept → All P cs → All P (or_chain kept cs)
  All-or_chain [] cs hk hc = hc
  All-or_chain (k ∷ kept) cs hk hc = hk

  All-middle : (before rest : List Candidate) (c : Candidate) → All P (before ++ c ∷ rest) → P c
  All-middle [] rest c h = h.0
  All-middle (b ∷ before) rest c h = All-middle before rest c h.1

module _ {A W : Type 0} (clients : Clients A W) where
  candidates-IsUsable :
      (via_local : Bool) (complexity : Complexity) (router : ModelRouter) (now : ℕ)
      → All
          (IsUsable via_local complexity router.registry)
          (candidates router now (chain router via_local complexity))
  unfolding candidates chain
  candidates-IsUsable via_local complexity router now =
      let Q = IsUsable via_local complexity router.registry in
      let whole =
        keep-IsUsable via_local complexity router.registry (ordered via_local complexity)
          (ordered-IsAdmitted via_local complexity router.registry) in
      All-or_chain Q _ _ (All-keep Q (λ c. is_healthy router now c.0) _ whole) whole

  -- A turn is answered only by a provider that is enabled in the registry and that the cost policy
  -- admits: a complex or judging task by anthropic or openai, a standard one by local only if the
  -- setting says so, and a simple one never by openai.
  pub step-admitted :
      (via_local : Bool) (complexity : Complexity) (router : ModelRouter) (w : W)
      (out : StepOutput A)
      → (step clients via_local complexity router w).0 ≡ answered out
      → (is_admitted via_local complexity out.provider ≡ true)
        × (elim (get router.registry out.provider) [ none ↦ false | some p ↦ p.enabled ] ≡ true)
  step-admitted via_local complexity router w out e =
      let now = clients.monotonic_us w in
      let cs = candidates router now (chain router via_local complexity) in
      let h : Answered clients router.registry cs [] out
          (step clients via_local complexity router w).1 =
        rw e at (step-FellBack clients via_local complexity router w) in
      let usable = candidates-IsUsable via_local complexity router now in
      rw h.provider (
        All-middle (IsUsable via_local complexity router.registry) h.before h.rest h.chosen
          (rw h.split at usable))
