-- ===== src/Runtime/Agent.antt =====
-- `run_agent` of agent.py and `execute_tool` of tools.py. `turn` and `summarize` are a turn of the
-- router for the agent and for a summary; `I` is the type of the inputs that a tool's model parses.
mod Calls
pub mod Rounds
use ai_agents_enterprise.Prelude.{
  ℕ, zero, suc, ◌+◌, String, concat, Bool, true, false, Option, none, some, List, [], ◌∷◌, ◌++◌,
  map, find, ◌==◌,
}
use ai_agents_enterprise.Runtime.Types.{
  Usage, no_usage, add_usage, add_cost, Message, user_message, assistant_message, tool_result,
  ToolCall, StepOutput, ToolExecution, AgentStep, ContextPart, CompactionEvent, RunContext,
  AgentStatus, completed, max_steps_reached, AgentRun, Turned, turned, unavailable,
}
use ai_agents_enterprise.Runtime.Context.{
  ContextPolicy, Compacted, unchanged, compacted, failed, build, render_system, maybe_compact,
}

-- model_validate, with the text of the ValidationError.
pub data Validation (I : Type 0) : Type 0 where
  parsed : I → Validation I
  invalid : String → Validation I

-- An awaited handler, with the name of the exception's type and its text.
pub data Handled : Type 0 where
  result : String → Handled
  exception : (type message : String) → Handled

pub record Tool (A I W : Type 0) : Type 0 where
  pub name : String
  pub description : String
  pub model_validate : A → Validation I
  pub handler : I → W → Handled × W

pub record Agent (A I W : Type 0) : Type 0 where
  pub name : String
  pub instructions : String
  pub tools : List (Tool A I W)
  pub max_steps : ℕ
  pub context_policy : ContextPolicy

abbrev pub answer : String → Handled → String × Bool
answer name (result text) = (text, false)
answer name (exception type message) =
    (concat ("Tool " ∷ name ∷ " failed: " ∷ type ∷ ": " ∷ message ∷ []), true)

abbrev pub execution : {A : Type 0} → ToolCall A → String × Bool → ToolExecution A
execution call (text, is_error) = record {
  tool_call_id = call.id;
  name = call.name;
  arguments = call.arguments;
  result = text;
  is_error = is_error;
}

module _ {A I W : Type 0} where
  abbrev pub tool_named : Agent A I W → String → Option (Tool A I W)
  tool_named agent name = find (λ t. t.name == name) agent.tools

  unfoldable pub execute_tool : Tool A I W → A → W → (String × Bool) × W
  execute_tool tool arguments w = elim (tool.model_validate arguments) [
    | invalid why ↦ ((concat ("Invalid arguments for " ∷ tool.name ∷ ": " ∷ why ∷ []), true), w)
    | parsed input ↦ let (handled, w') = tool.handler input w in (answer tool.name handled, w')
  ]

  unfoldable pub run_call : Agent A I W → ToolCall A → W → ToolExecution A × W
  run_call agent call w = elim (tool_named agent call.name) [
    | none ↦ (execution call (concat ("Unknown tool: " ∷ call.name ∷ []), true), w)
    | some tool ↦ let (out, w') = execute_tool tool call.arguments w in (execution call out, w')
  ]

  -- The loop over `out.tool_calls`.
  unfoldable pub run_calls : Agent A I W → List (ToolCall A) → W → List (ToolExecution A) × W
  run_calls agent [] w = ([], w)
  run_calls agent (call ∷ calls) w =
      let (e, w') = run_call agent call w in
      let (es, w'') = run_calls agent calls w' in (e ∷ es, w'')

abbrev pub result_message : {A : Type 0} → ToolExecution A → Message A
result_message e = tool_result e.tool_call_id e.name e.result e.is_error

-- The local variables of `run_agent`.
pub record Loop (A : Type 0) : Type 0 where
  pub transcript : List (Message A)
  pub steps : List (AgentStep A)
  pub usage : Usage
  pub cost : Option ℕ
  pub context : RunContext

-- The run, or NoProviderAvailableError.
pub data Finished (A : Type 0) : Type 0 where
  finished : AgentRun A → Finished A
  no_provider : Finished A

module _ {A : Type 0} where
  unfoldable pub absorb : Loop A → Compacted A → Loop A
  absorb l unchanged = l
  absorb l (compacted t event) = record l {
    transcript = t;
    usage = add_usage l.usage event.usage;
    cost = add_cost l.cost event.cost_usd;
    context = record l.context { compactions = l.context.compactions ++ event ∷ [] };
  }
  absorb l failed = l

  -- What a turn's output and the executions of its calls add.
  unfoldable pub extend : Loop A → StepOutput A → List (ToolExecution A) → Loop A
  extend l out executions = record l {
    transcript =
        l.transcript ++ assistant_message out.text out.tool_calls ∷ map result_message executions;
    steps = l.steps ++ (record { output = out; tool_executions = executions }) ∷ [];
    usage = add_usage l.usage out.usage;
    cost = add_cost l.cost out.cost_usd;
  }

  unfoldable pub finish : String → AgentStatus → (final_text : String) → Loop A → Finished A
  finish name status final_text l = finished (record {
    agent = name;
    status = status;
    final_text = final_text;
    steps = l.steps;
    usage = l.usage;
    cost_usd = l.cost;
    context = l.context;
  })

unfoldable pub start : {A : Type 0} → (user_input : String) → List ContextPart → Loop A
start user_input parts = record {
  transcript = user_message user_input ∷ [];
  steps = [];
  usage = no_usage;
  cost = some 0;
  context = record { parts = parts; compactions = [] };
}

module _ {A I W : Type 0} (dumps : A → String) (summarize : String → W → Turned A × W)
    (turn : List (Message A) → W → Turned A × W) (agent : Agent A I W) where
  -- The end of a round: without tool calls the run is completed.
  unfoldable pub after_turn :
      (Loop A → W → Finished A × Loop A × W)
      → StepOutput A
      → Loop A
      → W
      → List (ToolCall A)
      → Finished A × Loop A × W
  after_turn continue out l w [] = (finish agent.name completed out.text l, l, w)
  after_turn continue out l w (c ∷ cs) = continue l w

  -- A round from the turn on; `continue` is the rest of the loop.
  unfoldable pub take_turn :
      (Loop A → W → Finished A × Loop A × W) → Loop A → W → Finished A × Loop A × W
  take_turn continue l w =
      let (said, w') = turn l.transcript w in
      elim said [
        | unavailable ↦ (no_provider, l, w')
        | turned out ↦
            let (executions, w'') = run_calls agent out.tool_calls w' in
            let l' = extend l out executions in after_turn continue out l' w'' out.tool_calls
      ]

  -- The `for` loop from round `index` on, with `left` rounds to go, and the variables at its end.
  unfoldable pub run_rounds : (left index : ℕ) → Loop A → W → Finished A × Loop A × W
  run_rounds zero index l w = (finish agent.name max_steps_reached "" l, l, w)
  run_rounds (suc left) index l w =
      let (folded, w') = maybe_compact dumps summarize agent.context_policy l.transcript index w in
      elim folded [
        | failed ↦ (no_provider, l, w')
        | unchanged ↦ take_turn (run_rounds left (suc index)) l w'
        | compacted t event ↦
            take_turn (run_rounds left (suc index)) (absorb l (compacted t event)) w'
      ]

  unfoldable pub run_agent : (user_input : String) → List ContextPart → W → Finished A × Loop A × W
  run_agent user_input parts w = run_rounds agent.max_steps 0 (start user_input parts) w
