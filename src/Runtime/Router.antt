-- ===== src/Runtime/Router.antt =====
-- `ModelRouter` of router.py: the chain of candidates for a complexity, the cooldown of providers
-- that failed, and one model turn with fallback. Times are whole microseconds of the monotonic
-- clock, which is read once for each candidate list, and before and after each provider call.
pub mod Fallback
use ai_agents_enterprise.Prelude.{
  ℕ, ◌+◌, ◌-◌, ◌/◌, String, Bool, true, false, ◌&&◌, Option, none, some, is_some, List, [], ◌∷◌,
  ◌++◌, keep, ltb, leb, if◌then◌else◌, Dict, get, put, remove,
}
use ai_agents_enterprise.Runtime.Types.{
  Complexity, simple, standard, complex, judge, Usage, StepOutput, Message, user_message,
  assistant_message, estimate_cost_usd,
}

pub data ProviderKind : Type 0 where
  anthropic openai_compatible : ProviderKind

pub record Provider : Type 0 where
  pub name : String
  pub kind : ProviderKind
  pub enabled : Bool
  pub models : Dict String

-- (provider name, model role)
abbrev pub Candidate : Type 0
Candidate = String × String

abbrev pub health_cooldown_us : ℕ
health_cooldown_us = 30000000

pub record ModelRouter : Type 0 where
  pub registry : Dict Provider
  pub unhealthy_until : Dict ℕ

unfoldable pub is_healthy : ModelRouter → (now : ℕ) → String → Bool
is_healthy router now name = elim (get router.unhealthy_until name) [
  | none ↦ true
  | some deadline ↦ leb deadline now
]

unfoldable pub mark_unhealthy : ModelRouter → (now : ℕ) → String → ModelRouter
mark_unhealthy router now name = record router {
  unhealthy_until = put router.unhealthy_until name (now + health_cooldown_us);
}

-- The success branch's `_unhealthy_until.pop(provider_name, None)`.
unfoldable pub mark_healthy : ModelRouter → String → ModelRouter
mark_healthy router name = record router { unhealthy_until = remove router.unhealthy_until name }

abbrev pub cheap : List Candidate
cheap = ("deepseek", "default") ∷ ("kimi", "default") ∷ []

abbrev pub frontier : List Candidate
frontier = ("anthropic", "default") ∷ ("openai", "default") ∷ []

abbrev pub local : List Candidate
local = ("local", "default") ∷ []

-- `via_local` is the setting route_standard_via_local.
abbrev pub ordered : (via_local : Bool) → Complexity → List Candidate
ordered via_local simple = local ++ cheap ++ ("anthropic", "small") ∷ []
ordered via_local standard = (if via_local then local else []) ++ cheap ++ frontier
ordered via_local complex = frontier
ordered via_local judge = frontier

abbrev pub is_enabled : Dict Provider → Candidate → Bool
is_enabled registry c = elim (get registry c.0) [ none ↦ false | some p ↦ p.enabled ]

unfoldable pub chain : ModelRouter → (via_local : Bool) → Complexity → List Candidate
chain router via_local complexity = keep (is_enabled router.registry) (ordered via_local complexity)

abbrev pub or_chain : (kept chain : List Candidate) → List Candidate
or_chain [] chain = chain
or_chain (c ∷ cs) chain = c ∷ cs

-- `[c for c in chain if self._is_healthy(c[0])] or chain`
unfoldable pub candidates : ModelRouter → (now : ℕ) → List Candidate → List Candidate
candidates router now chain = or_chain (keep (λ c. is_healthy router now c.0) chain) chain

abbrev pub is_hard : Complexity → Bool
is_hard complex = true
is_hard judge = true
is_hard _ = false

-- What is outside of the router: the clock, and the two provider clients with the prompt of a turn,
-- whose `none` is a ProviderCallError.
pub record Clients (A W : Type 0) : Type 0 where
  pub monotonic_us : W → ℕ
  pub lower : String → String
  pub step_anthropic :
      Provider → (model : String) → (use_thinking : Bool) → W → Option (StepOutput A) × W
  pub step_openai_compatible : Provider → (model : String) → W → Option (StepOutput A) × W

-- NoProviderAvailableError, and the KeyError of a missing provider or model role.
pub data Turn (A : Type 0) : Type 0 where
  answered : StepOutput A → Turn A
  no_provider : Complexity → (attempts : List (String × String)) → Turn A
  key_error : Turn A

module _ {A W : Type 0} (clients : Clients A W) where
  unfoldable pub call_provider : Provider → String → Complexity → W → Option (StepOutput A) × W
  call_provider provider model complexity w = elim provider.kind [
    | anthropic ↦ clients.step_anthropic provider model (is_hard complexity) w
    | openai_compatible ↦ clients.step_openai_compatible provider model w
  ]

  unfoldable pub fill :
      Candidate
      → (model : String) → (latency_ms : ℕ) → List (String × String)
      → StepOutput A
      → StepOutput A
  fill c model latency_ms attempts out = record out {
    provider = c.0;
    model = model;
    latency_ms = latency_ms;
    cost_usd = estimate_cost_usd clients.lower model out.usage.input_tokens out.usage.output_tokens;
    attempts = attempts;
  }

  -- The model id of a candidate.
  abbrev pub model_of : Dict Provider → Candidate → Option (Provider × String)
  model_of registry c = elim (get registry c.0) [
    | none ↦ none
    | some provider ↦ elim (get provider.models c.1) [
      | none ↦ none
      | some model ↦ some (provider, model)
    ]
  ]

  -- The loop of `step` over the candidates.
  unfoldable pub try_candidates :
      Complexity
      → List Candidate
      → List (String × String)
      → ModelRouter
      → W
      → Turn A × ModelRouter × W
  try_candidates complexity [] attempts router w = (no_provider complexity attempts, router, w)
  try_candidates complexity (c ∷ cs) attempts router w = elim (model_of router.registry c) [
    | none ↦ (key_error, router, w)
    | some (provider, model) ↦
        let (out, w') = call_provider provider model complexity w in
        let now = clients.monotonic_us w' in
        elim out [
          | none ↦
              try_candidates complexity cs (attempts ++ (c.0, model) ∷ [])
                (mark_unhealthy router now c.0) w'
          | some out' ↦ (
            answered (fill c model ((now - clients.monotonic_us w) / 1000) attempts out'),
            mark_healthy router c.0,
            w',
          )
        ]
  ]

  unfoldable pub step : (via_local : Bool) → Complexity → ModelRouter → W → Turn A × ModelRouter × W
  step via_local complexity router w =
      try_candidates complexity
        (candidates router (clients.monotonic_us w) (chain router via_local complexity)) [] router w

-- The result of `complete`.
pub record Completion : Type 0 where
  pub text : String
  pub provider : String
  pub model : String
  pub usage : Usage
  pub cost_usd : Option ℕ
  pub latency_ms : ℕ
  pub complexity : Complexity
  pub attempts : List (String × String)

pub record ChatMessage : Type 0 where
  pub is_user : Bool
  pub content : String

-- The transcript that `complete` sends.
abbrev pub transcript_of_chat : {A : Type 0} → List ChatMessage → List (Message A)
transcript_of_chat [] = []
transcript_of_chat (m ∷ ms) =
    (if m.is_user then user_message m.content else assistant_message m.content [])
    ∷ transcript_of_chat ms

abbrev pub completion : {A : Type 0} → Complexity → StepOutput A → Completion
completion complexity out = record {
  text = out.text;
  provider = out.provider;
  model = out.model;
  usage = out.usage;
  cost_usd = out.cost_usd;
  latency_ms = out.latency_ms;
  complexity = complexity;
  attempts = out.attempts;
}

-- `clients` are the provider clients at a transcript; `none` is the error of `step`.
unfoldable pub complete :
    {A W : Type 0} (clients : List (Message A) → Clients A W) (via_local : Bool)
    → List ChatMessage
    → Complexity
    → ModelRouter
    → W
    → Option Completion × ModelRouter × W
complete clients via_local messages complexity router w =
    let (turn, router', w') =
      step (clients (transcript_of_chat messages)) via_local complexity router w in
    elim turn [
      | answered out ↦ (some (completion complexity out), router', w')
      | _ ↦ (none, router', w')
    ]
