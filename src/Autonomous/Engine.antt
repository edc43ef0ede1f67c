-- ===== src/Autonomous/Engine.antt =====
-- `run_autonomous` of agent.py with its `remember` tool. `think` is a turn of the router on a
-- system prompt and a question, `act_turn` and `summarize` are the turns of the acting agent, whose
-- other tools are an argument. The scratchpad memory is shared with the tool, so it stands beside
-- the world.
pub mod Rounds
use ai_agents_enterprise.Prelude.{
  ℕ, zero, suc, ◌+◌, String, concat, join, Bool, true, false, not, ◌&&◌, Option, none, some, List,
  [], ◌∷◌, ◌++◌, map, any, ◌==◌, if◌then◌else◌,
}
use ai_agents_enterprise.Runtime.Types.{
  Message, ToolCall, StepOutput, Turned, turned, unavailable, ContextPart, AgentRun, add_cost,
}
use ai_agents_enterprise.Runtime.Context.{ContextPolicy, build}
use ai_agents_enterprise.Runtime.Agent.{
  Agent, Tool, Handled, result, Validation, Finished, finished, no_provider, Loop, run_agent,
}
use ai_agents_enterprise.Autonomous.Answers.{
  Json, Plan, Reflection, parse_plan, parse_reflection, is_present,
}

abbrev pub act_max_steps : ℕ
act_max_steps = 12

pub data Prompt : Type 0 where
  plan_system reflect_system : Prompt

pub record Shared (W : Type 0) : Type 0 where
  pub world : W
  pub memory : List String

pub record Iteration : Type 0 where
  pub plan : Plan
  pub actions : String
  pub reflection : Reflection

pub record AutonomousResult : Type 0 where
  pub goal : String
  pub iterations : List Iteration
  pub memory : List String
  pub final_answer : String
  pub completed : Bool
  pub cost_usd : Option ℕ

-- The result, NoProviderAvailableError, or the TypeError of an answer.
pub data Outcome : Type 0 where
  done : AutonomousResult → Outcome
  no_model type_error : Outcome

abbrev pub is_in : String → List String → Bool
is_in t ts = any (λ u. u == t) ts

-- The handler of `remember`, on a note without white space at its ends.
unfoldable pub remember : {W : Type 0} → String → Shared W → Handled × Shared W
remember note s = (
  result (concat ("remembered: " ∷ note ∷ [])),
  if is_present note && not (is_in note s.memory)
      then record s { memory = s.memory ++ note ∷ [] }
      else s,
)

abbrev pub numbered : (shown : ℕ → String) → ℕ → List String → List String
numbered shown n [] = []
numbered shown n (t ∷ ts) = concat (shown n ∷ ". " ∷ t ∷ []) ∷ numbered shown (suc n) ts

abbrev pub plan_prompt : (goal : String) → (focus : Option String) → String
plan_prompt goal none = concat ("Goal: " ∷ goal ∷ [])
plan_prompt goal (some focus) =
    concat ("Goal: " ∷ goal ∷ "\n\nFocus this plan on what is still missing: " ∷ focus ∷ [])

abbrev pub scratchpad : List String → String
scratchpad [] = "(empty)"
scratchpad (m ∷ ms) = join "\n" (map (λ t. concat ("- " ∷ t ∷ [])) (m ∷ ms))

abbrev pub reflect_prompt : (goal : String) → List String → (last_actions : String) → String
reflect_prompt goal memory last_actions = concat (
    "Goal: "
    ∷ goal
    ∷ "\n\nScratchpad memory so far:\n"
    ∷ scratchpad memory
    ∷ "\n\nMost recent actions/result:\n"
    ∷ last_actions
    ∷ [])

abbrev pub act_input : (shown : ℕ → String) → (goal : String) → Plan → String
act_input shown goal plan = concat (
    "Goal: "
    ∷ goal
    ∷ "\n\nPlan for this round:\n"
    ∷ join "\n" (numbered shown 1 plan.steps)
    ∷ "\n\nExecute the plan and report concrete results."
    ∷ [])

-- `a or b or None`
abbrev pub first_present : String → String → Option String
first_present a b = if is_present a then some a else if is_present b then some b else none

-- The variables of the loop but the memory.
pub record Progress : Type 0 where
  pub iterations : List Iteration
  pub cost : Option ℕ
  pub focus : Option String
  pub final_answer : String

-- The end of a round: a fault, or the progress and whether the goal is met.
pub data Round : Type 0 where
  fault : Outcome → Round
  went : (goal_met : Bool) → Progress → Round

-- What the loop takes from outside.
pub record Autonomy (A I W : Type 0) : Type 0 where
  pub loads : String → Option Json
  pub str : Json → String
  pub strip : String → String
  pub shown : ℕ → String
  pub dumps : A → String
  pub think : Prompt → String → W → Turned A × W
  pub summarize : String → W → Turned A × W
  pub act_turn : List ContextPart → List (Message A) → W → Turned A × W
  pub note_of : A → Validation I
  pub note_text : I → String
  pub tools : List (Tool A I (Shared W))
  pub instructions : String
  pub context_policy : ContextPolicy

-- The round's result joins the memory, unless it is empty.
unfoldable pub memorize : (final_text : String) → List String → List String
memorize final_text memory =
    if is_present final_text
    then memory ++ concat ("Round result: " ∷ final_text ∷ []) ∷ []
    else memory

-- What a round adds when all three of its parts have answered.
unfoldable pub advance :
    Plan → (final_text : String) → Reflection → (costs : Option ℕ) → Progress → Progress
advance plan final_text reflection costs p = record {
  iterations =
      p.iterations ++ record { plan = plan; actions = final_text; reflection = reflection } ∷ [];
  cost = costs;
  focus = first_present reflection.next_focus reflection.missing;
  final_answer = if is_present final_text then final_text else p.final_answer;
}

unfoldable pub conclude :
    {W : Type 0} → (goal : String) → (completed : Bool) → Progress → Shared W → Outcome
conclude goal completed p s = done (record {
  goal = goal;
  iterations = p.iterations;
  memory = s.memory;
  final_answer = p.final_answer;
  completed = completed;
  cost_usd = p.cost;
})

module _ {A I W : Type 0} (auto : Autonomy A I W) where
  -- A turn of a model leaves the memory alone.
  abbrev pub beside : Shared W → Turned A × W → Turned A × Shared W
  beside s (t, w) = (t, record s { world = w })

  unfoldable pub build_act_agent : Agent A I (Shared W)
  build_act_agent = record {
    name = "autonomous-actor";
    instructions = auto.instructions;
    tools =
        record {
          name = "remember";
          description =
              "Record a durable fact or result into the scratchpad memory so it is available in later steps.";
          model_validate = auto.note_of;
          handler = λ i s. remember (auto.strip (auto.note_text i)) s;
        }
        ∷ auto.tools;
    max_steps = act_max_steps;
    context_policy = auto.context_policy;
  }

  -- The run of the acting agent on a plan.
  unfoldable pub act : (goal : String) → Plan → Shared W → Finished A × Loop A × Shared W
  act goal plan s =
      let parts = build auto.instructions s.memory [] "" in
      run_agent auto.dumps (λ prompt t. beside t (auto.summarize prompt t.world))
        (λ transcript t. beside t (auto.act_turn parts transcript t.world)) build_act_agent
        (act_input auto.shown goal plan) parts s

  unfoldable pub reflect :
      (goal : String)
      → Plan
      → (final_text : String) → (costs : Option ℕ) → Progress
      → Shared W
      → Round × Shared W
  reflect goal plan final_text costs p s =
      let (out, s') =
        beside s (auto.think reflect_system (reflect_prompt goal s.memory final_text) s.world) in
      elim out [
        | unavailable ↦ (fault no_model, s')
        | turned o ↦
            let reflection = parse_reflection auto.loads auto.str auto.strip o.text in
            (
              went reflection.goal_met
                  (advance plan final_text reflection (add_cost costs o.cost_usd) p),
              s',
            )
      ]

  unfoldable pub act_and_reflect :
      (goal : String) → Plan → (costs : Option ℕ) → Progress → Shared W → Round × Shared W
  act_and_reflect goal plan costs p s =
      let (ran, l, s') = act goal plan s in
      elim ran [
        | no_provider ↦ (fault no_model, s')
        | finished run ↦
            reflect goal plan run.final_text (add_cost costs run.cost_usd) p
              (record s' { memory = memorize run.final_text s'.memory })
      ]

  unfoldable pub round : (goal : String) → Progress → Shared W → Round × Shared W
  round goal p s =
      let (out, s') = beside s (auto.think plan_system (plan_prompt goal p.focus) s.world) in
      elim out [
        | unavailable ↦ (fault no_model, s')
        | turned o ↦ elim (parse_plan auto.loads auto.str auto.strip o.text goal) [
          | none ↦ (fault type_error, s')
          | some plan ↦ act_and_reflect goal plan (add_cost p.cost o.cost_usd) p s'
        ]
      ]

  -- The `for` loop over the iterations that are left.
  unfoldable pub iterate_rounds :
      (left : ℕ) → (goal : String) → Progress → Shared W → Outcome × Shared W
  iterate_rounds zero goal p s = (conclude goal false p s, s)
  iterate_rounds (suc left) goal p s =
      let (r, s') = round goal p s in
      elim r [
        | fault o ↦ (o, s')
        | went true p' ↦ (conclude goal true p' s', s')
        | went false p' ↦ iterate_rounds left goal p' s'
      ]

  unfoldable pub run_autonomous : (goal : String) → (max_iterations : ℕ) → W → Outcome × W
  run_autonomous goal max_iterations w =
      let p : Progress = record {
        iterations = [];
        cost = some 0;
        focus = none;
        final_answer = "";
      } in
      let (out, s) = iterate_rounds max_iterations goal p (record { world = w; memory = [] }) in
      (out, s.world)
