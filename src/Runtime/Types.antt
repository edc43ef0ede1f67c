-- ===== src/Runtime/Types.antt =====
-- The messages, outputs and records of types.py, the price table of pricing.py and `add_cost` of
-- _util.py. `A` is the type of argument dicts. A cost is counted in units of 10⁻⁸ USD, in which
-- every price of the table is a whole number for each token.
use ai_agents_enterprise.Prelude.{
  ℕ, ◌+◌, ◌*◌, String, Bool, Option, none, some, List, [], ◌∷◌, any, if◌then◌else◌, Dict, get,
}
use text.Mathlib.Text.{starts_with}

pub data Complexity : Type 0 where
  simple standard complex judge : Complexity

pub record Usage : Type 0 where
  pub input_tokens : ℕ
  pub output_tokens : ℕ

abbrev pub no_usage : Usage
no_usage = record { input_tokens = 0; output_tokens = 0 }

-- Usage.__add__
unfoldable pub add_usage : Usage → Usage → Usage
add_usage u v = record {
  input_tokens = u.input_tokens + v.input_tokens;
  output_tokens = u.output_tokens + v.output_tokens;
}

pub record ToolCall (A : Type 0) : Type 0 where
  pub id : String
  pub name : String
  pub arguments : A

-- `Transcript` items.
pub data Message (A : Type 0) : Type 0 where
  user_message : (content : String) → Message A
  assistant_message : (content : String) (tool_calls : List (ToolCall A)) → Message A
  tool_result : (tool_call_id name content : String) (is_error : Bool) → Message A

pub record StepOutput (A : Type 0) : Type 0 where
  pub text : String
  pub tool_calls : List (ToolCall A)
  pub provider : String
  pub model : String
  pub usage : Usage
  pub cost_usd : Option ℕ
  pub latency_ms : ℕ
  pub attempts : List (String × String)

pub record ToolExecution (A : Type 0) : Type 0 where
  pub tool_call_id : String
  pub name : String
  pub arguments : A
  pub result : String
  pub is_error : Bool

pub record AgentStep (A : Type 0) : Type 0 where
  pub output : StepOutput A
  pub tool_executions : List (ToolExecution A)

pub record ContextPart : Type 0 where
  pub name : String
  pub content : String

pub record CompactionEvent : Type 0 where
  pub step : ℕ
  pub tokens_before : ℕ
  pub tokens_after : ℕ
  pub summarized_items : ℕ
  pub usage : Usage
  pub cost_usd : Option ℕ

pub record RunContext : Type 0 where
  pub parts : List ContextPart
  pub compactions : List CompactionEvent

pub data AgentStatus : Type 0 where
  completed max_steps_reached : AgentStatus

pub record AgentRun (A : Type 0) : Type 0 where
  pub agent : String
  pub status : AgentStatus
  pub final_text : String
  pub steps : List (AgentStep A)
  pub usage : Usage
  pub cost_usd : Option ℕ
  pub context : RunContext

-- An unknown price is contagious.
unfoldable pub add_cost : Option ℕ → Option ℕ → Option ℕ
add_cost none delta = none
add_cost (some total) none = none
add_cost (some total) (some delta) = some (total + delta)

abbrev pub prices_per_mtok : Dict (ℕ × ℕ)
prices_per_mtok =
    ("claude-opus-4-8", (500, 2500))
    ∷ ("claude-sonnet-4-6", (300, 1500))
    ∷ ("claude-haiku-4-5", (100, 500))
    ∷ ("gpt-5.1", (125, 1000))
    ∷ ("deepseek-chat", (27, 110))
    ∷ ("deepseek-reasoner", (55, 219))
    ∷ ("kimi-k2-0905-preview", (60, 250))
    ∷ []

abbrev pub local_prefixes : List String
local_prefixes = "qwen" ∷ "llama" ∷ "mistral" ∷ "gemma" ∷ "phi" ∷ []

-- `lower` is Python's str.lower.
unfoldable pub estimate_cost_usd :
    (lower : String → String) (model : String) (input output : ℕ) → Option ℕ
estimate_cost_usd lower model input output = elim (get prices_per_mtok model) [
  | some price ↦ some (input * price.0 + output * price.1)
  | none ↦ if any (λ p. starts_with (lower model) p) local_prefixes then some 0 else none
]

-- One turn of the router as its callers see it.
pub data Turned (A : Type 0) : Type 0 where
  turned : StepOutput A → Turned A
  unavailable : Turned A
