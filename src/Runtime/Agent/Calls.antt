-- ===== src/Runtime/Agent/Calls.antt =====
-- What the steps of a run of the agent did, described apart from the code: the effects of the
-- calls, and the worlds that they were made in, from one step to the next.
use ai_agents_enterprise.Prelude.{
  ℕ, String, concat, ◌≡◌, refl, sym, subst, Bool, true, false, none, some, Bool-cases, Option-cases,
  List, [], ◌∷◌, ◌++◌, inl, inr, ◌⊎◌, ltb, take,
}
use ai_agents_enterprise.Runtime.Types.{Message, ToolCall, ToolExecution, AgentStep, Turned, turned}
use ai_agents_enterprise.Runtime.Context.{
  ContextPolicy, should_compact, choose_cut, render_transcript, maybe_compact,
}
use ai_agents_enterprise.Runtime.Context.Pairing.{Turned-cases}
use ai_agents_enterprise.Runtime.Agent.{
  Validation, parsed, invalid, Handled, result, exception, Agent, tool_named, execute_tool,
  run_call, run_calls,
}

Validation-cases :
    {I : Type 0} (v : Validation I)
    → ((why : String) × (v ≡ invalid why)) ⊎ ((i : I) × (v ≡ parsed i))
Validation-cases (invalid why) = inl (why, refl)
Validation-cases (parsed i) = inr (i, refl)

Handled-cases :
    (h : Handled)
    → ((text : String) × (h ≡ result text))
      ⊎ ((type message : String) × (h ≡ exception type message))
Handled-cases (result text) = inl (text, refl)
Handled-cases (exception type message) = inr (type, message, refl)

module _ {A I W : Type 0} (agent : Agent A I W) where
  -- The text and the flag of a call's execution.
  abbrev pub Says : ToolExecution A → String → Bool → Type 0
  Says e text is_error = (e.result ≡ text) × (e.is_error ≡ is_error)

  -- What a handler's end makes of an execution.
  abbrev pub Answers : (name : String) → ToolExecution A → Handled → Type 0
  Answers name e (result text) = Says e text false
  Answers name e (exception type message) =
      Says e (concat ("Tool " ∷ name ∷ " failed: " ∷ type ∷ ": " ∷ message ∷ [])) true

  -- The effect of a call from one world to another: the first tool of the name, if there is one, is
  -- run once on the parsed arguments, if they parse.
  abbrev pub Ends : ToolCall A → W → ToolExecution A → W → Type 0
  Ends c w e w' = elim (tool_named agent c.name) [
    | none ↦ Says e (concat ("Unknown tool: " ∷ c.name ∷ [])) true × (w' ≡ w)
    | some tool ↦ elim (tool.model_validate c.arguments) [
      | invalid why ↦
          Says e (concat ("Invalid arguments for " ∷ tool.name ∷ ": " ∷ why ∷ [])) true × (w' ≡ w)
      | parsed input ↦
          Answers tool.name e (tool.handler input w).0 × (w' ≡ (tool.handler input w).1)
    ]
  ]

  -- An execution is the one of a call.
  pub record Performed (c : ToolCall A) (w : W) (e : ToolExecution A) (w' : W) : Type 0 where
    pub same_id : e.tool_call_id ≡ c.id
    pub same_name : e.name ≡ c.name
    pub same_arguments : e.arguments ≡ c.arguments
    pub ends : Ends c w e w'

  -- The executions are those of the calls, each of one call, in order.
  abbrev pub Performs : List (ToolCall A) → W → List (ToolExecution A) → W → Type 0
  Performs [] w [] w' = w' ≡ w
  Performs [] w (e ∷ es) w' = ⊥
  Performs (c ∷ cs) w [] w' = ⊥
  Performs (c ∷ cs) w (e ∷ es) w' = (u : W) × Performed c w e u × Performs cs u es w'

  run_call-Performed :
      (c : ToolCall A) (w : W) → Performed c w (run_call agent c w).0 (run_call agent c w).1
  unfolding run_call execute_tool
  run_call-Performed c w = elim (Option-cases (tool_named agent c.name)) [
    | inl e ↦
        rw (run_call, e)
          (record {
            same_id = refl;
            same_name = refl;
            same_arguments = refl;
            ends = rw (Ends, e) ((refl, refl), refl);
          })
    | inr (tool, e) ↦ elim (Validation-cases (tool.model_validate c.arguments)) [
      | inl (why, v) ↦
          rw (run_call, e)
            (rw (execute_tool, v)
              (record {
                same_id = refl;
                same_name = refl;
                same_arguments = refl;
                ends = rw (Ends, e) (rw v ((refl, refl), refl));
              }))
      | inr (input, v) ↦
          rw (run_call, e)
            (rw (execute_tool, v)
              (record {
                same_id = refl;
                same_name = refl;
                same_arguments = refl;
                ends =
                    rw (Ends, e)
                      (rw v (
                        elim (Handled-cases (tool.handler input w).0) [
                          | inl (text, h) ↦ rw h (refl, refl)
                          | inr (type, message, h) ↦ rw h (refl, refl)
                        ],
                        refl,
                      ));
              }))
    ]
  ]

  pub run_calls-Performs :
      (cs : List (ToolCall A)) (w : W)
      → Performs cs w (run_calls agent cs w).0 (run_calls agent cs w).1
  unfolding run_calls
  run_calls-Performs [] w = refl
  run_calls-Performs (c ∷ cs) w =
      ((run_call agent c w).1, run_call-Performed c w, run_calls-Performs cs (run_call agent c w).1)

  module _ (dumps : A → String) (summarize : String → W → Turned A × W)
      (turn : List (Message A) → W → Turned A × W) where
    -- A round may have asked for a summary first.
    abbrev pub Folded : W → W → Type 0
    Folded w w' = (w' ≡ w) ⊎ ((text : String) × (w' ≡ (summarize text w).1))

    -- A step from one world to another: after a summary at most, the model took a turn, whose
    -- output is the step's, and then the calls of this output were performed.
    abbrev pub Did : W → AgentStep A → W → Type 0
    Did w s w' =
        (u : W) × (t : List (Message A)) × Folded w u
        × ((turn t u).0 ≡ turned s.output)
        × Performs s.output.tool_calls (turn t u).1 s.tool_executions w'

    -- The steps, one after another.
    abbrev pub Chain : List (AgentStep A) → W → W → Type 0
    Chain [] w w' = w ≡ w'
    Chain (s ∷ steps) w w' = (u : W) × Did w s u × Chain steps u w'

    pub Chain-snoc :
        (steps : List (AgentStep A)) (s : AgentStep A) (w u w' : W)
        → Chain steps w u
        → Did u s w'
        → Chain (steps ++ s ∷ []) w w'
    Chain-snoc [] s w u w' h d = (w', subst (λ x. Did x s w') (sym h) d, refl)
    Chain-snoc (x ∷ steps) s w u w' h d = (h.0, h.1, Chain-snoc steps s h.0 u w' h.2 d)

    pub maybe_compact-Folded :
        (policy : ContextPolicy) (t : List (Message A)) (index : ℕ) (w : W)
        → Folded w (maybe_compact dumps summarize policy t index w).1
    unfolding maybe_compact
    maybe_compact-Folded policy t index w =
        let text = render_transcript dumps (take (choose_cut t policy.keep_recent_items) t) in
        elim (Bool-cases (should_compact dumps policy t)) [
          | inr e ↦ rw (maybe_compact, e) (inl refl)
          | inl e ↦ elim (Bool-cases (ltb (choose_cut t policy.keep_recent_items) 2)) [
            | inl f ↦ rw (maybe_compact, e) (rw f (inl refl))
            | inr f ↦ elim (Turned-cases (summarize text w).0) [
              | inl (out, g) ↦ rw (maybe_compact, e) (rw f (rw g (inr (text, refl))))
              | inr g ↦ rw (maybe_compact, e) (rw f (rw g (inr (text, refl))))
            ]
          ]
        ]
