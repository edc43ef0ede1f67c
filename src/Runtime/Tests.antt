-- ===== src/Runtime/Tests.antt =====
-- A router with two providers, an agent with one tool, and the theorems at them.
use ai_agents_enterprise.Prelude.{
  ℕ, zero, suc, ◌+◌, String, ◌≡◌, refl, true, false, none, some, List, [], ◌∷◌, Dict, get, put,
}
use ai_agents_enterprise.Runtime.Types.{
  simple, StepOutput, Message, user_message, assistant_message, tool_result, ToolCall, no_usage,
  Turned, turned, estimate_cost_usd,
}
use ai_agents_enterprise.Runtime.Router.{
  Provider, ProviderKind, anthropic, openai_compatible, ModelRouter, Clients, answered, chain,
  candidates, is_healthy, mark_unhealthy, mark_healthy, call_provider, fill, try_candidates, step,
}
use ai_agents_enterprise.Runtime.Router.Fallback.{
  FellBack, is_admitted, step-FellBack, step-admitted,
}
use ai_agents_enterprise.Runtime.Context.{ContextPolicy, maybe_compact}
use ai_agents_enterprise.Runtime.Context.Pairing.{Paired, transcript_of, maybe_compact-Paired}
use ai_agents_enterprise.Runtime.Agent.{Agent, Tool, Handled, parsed, run_agent}
use ai_agents_enterprise.Runtime.Agent.Rounds.{Ran, run_agent-Ran}

abbrev said : List (ToolCall ℕ) → StepOutput ℕ
said calls = record {
  text = "done";
  tool_calls = calls;
  provider = "";
  model = "";
  usage = no_usage;
  cost_usd = none;
  latency_ms = 0;
  attempts = [];
}

abbrev provider : String → ProviderKind → Dict String → Provider
provider name kind models = record { name = name; kind = kind; enabled = true; models = models }

abbrev router : ModelRouter
router = record {
  registry =
      ("local", provider "local" openai_compatible (("default", "qwen3") ∷ []))
      ∷ (
        "anthropic",
        provider "anthropic" anthropic
            (("default", "claude-opus-4-8") ∷ ("small", "claude-haiku-4-5") ∷ []),
      )
      ∷ [];
  unhealthy_until = [];
}

-- The local box is down.
abbrev clients : Clients ℕ ℕ
clients = record {
  monotonic_us = λ w. w;
  lower = λ t. t;
  step_anthropic = λ p model thinking w. (some (said []), w + 2000);
  step_openai_compatible = λ p model w. (none, w + 1000);
}

step-fallback :
    (step clients true simple router 0).0
    ≡ answered (record (said []) {
      provider = "anthropic";
      model = "claude-haiku-4-5";
      cost_usd = some 0;
      latency_ms = 2;
      attempts = ("local", "qwen3") ∷ [];
    })
unfolding step candidates chain try_candidates is_healthy mark_unhealthy mark_healthy call_provider
    fill get put estimate_cost_usd
step-fallback = refl

step-FellBack_example :
    FellBack clients router.registry
      (candidates router 0 (chain router true simple))
      []
      (step clients true simple router 0).0
      (step clients true simple router 0).1
step-FellBack_example = step-FellBack clients true simple router 0

step-admitted_example :
    (is_admitted true simple "anthropic" ≡ true)
    × (elim (get router.registry "anthropic") [ none ↦ false | some p ↦ p.enabled ] ≡ true)
step-admitted_example =
    step-admitted clients true simple router 0
      (record (said []) {
        provider = "anthropic";
        model = "claude-haiku-4-5";
        cost_usd = some 0;
        latency_ms = 2;
        attempts = ("local", "qwen3") ∷ [];
      })
      step-fallback

abbrev policy : ContextPolicy
policy = record {
  max_context_tokens = 1;
  compact_trigger_percent = 80;
  keep_recent_items = 1;
  summary_max_tokens = 512;
}

abbrev search_call : ToolCall ℕ
search_call = record { id = "c1"; name = "search"; arguments = 7 }

abbrev talk : List (Message ℕ)
talk =
    user_message "find it"
    ∷ assistant_message "" (search_call ∷ [])
    ∷ tool_result "c1" "search" "found" false
    ∷ user_message "thanks"
    ∷ []

abbrev dumps : ℕ → String
dumps n = "{}"

abbrev summarize : String → ℕ → Turned ℕ × ℕ
summarize prompt w = (turned (said []), w + 1)

maybe_compact-Paired_example :
    Paired (transcript_of talk (maybe_compact dumps summarize policy talk 0 5).0)
maybe_compact-Paired_example =
    maybe_compact-Paired dumps summarize policy talk 0 5 (refl, (refl, ([], refl, (refl, refl))))

-- Calls its tool in the first turn and is done in the second.
abbrev turn : List (Message ℕ) → ℕ → Turned ℕ × ℕ
turn t zero = (turned (said (search_call ∷ [])), 1)
turn t (suc w) = (turned (said []), suc (suc w))

abbrev search : Tool ℕ ℕ ℕ
search = record {
  name = "search";
  description = "Search the sources";
  model_validate = parsed;
  handler = λ n w. (Handled.result "found", w);
}

abbrev agent : Agent ℕ ℕ ℕ
agent = record {
  name = "researcher";
  instructions = "Answer";
  tools = search ∷ [];
  max_steps = 3;
  context_policy = policy;
}

run_agent-Ran_example :
    Ran dumps summarize turn agent 0 3 (run_agent dumps summarize turn agent "find it" [] 0)
run_agent-Ran_example = run_agent-Ran dumps summarize turn agent "find it" [] 0
