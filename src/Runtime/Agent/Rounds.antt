-- ===== src/Runtime/Agent/Rounds.antt =====
-- What holds of a run of the agent: its transcript, its tool calls, its use of tokens and its end.
use ai_agents_enterprise.Prelude.{
  ℕ, zero, suc, ◌+◌, ◌≤◌, String, ◌≡◌, refl, subst, Option-cases, List, [], ◌∷◌, ◌++◌, map, length,
  length-append, All, All-append, inl, inr, ◌⊎◌, arith,
}
use ai_agents_enterprise.Runtime.Types.{
  Usage, add_usage, Message, user_message, assistant_message, tool_result, ToolCall, StepOutput,
  ToolExecution, AgentStep, ContextPart, CompactionEvent, AgentStatus, completed, max_steps_reached,
  AgentRun, Turned,
}
use ai_agents_enterprise.Runtime.Context.{Compacted, unchanged, compacted, failed, maybe_compact}
use ai_agents_enterprise.Runtime.Context.Pairing.{
  ids, PairedFrom, Paired, Turned-cases, transcript_of, maybe_compact-Paired,
}
use ai_agents_enterprise.Runtime.Agent.{
  Agent, tool_named, run_call, run_calls, result_message, Loop, Finished, finished, no_provider,
  absorb, extend, finish, after_turn, take_turn, run_rounds, start, run_agent,
}
use ai_agents_enterprise.Runtime.Agent.Calls.{
  Folded, Chain, Chain-snoc, maybe_compact-Folded, run_calls-Performs,
}

module _ {A : Type 0} where
  abbrev execution_ids : List (ToolExecution A) → List String
  execution_ids [] = []
  execution_ids (e ∷ es) = e.tool_call_id ∷ execution_ids es

  -- The tokens of the steps, and of the compactions.
  abbrev step_tokens : (Usage → ℕ) → List (AgentStep A) → ℕ
  step_tokens f [] = 0
  step_tokens f (s ∷ steps) = f s.output.usage + step_tokens f steps

  -- The executions of a step are those of the identifiers of its calls.
  abbrev Executed : AgentStep A → Type 0
  Executed s = execution_ids s.tool_executions ≡ ids s.output.tool_calls

abbrev compaction_tokens : (Usage → ℕ) → List CompactionEvent → ℕ
compaction_tokens f [] = 0
compaction_tokens f (e ∷ es) = f e.usage + compaction_tokens f es

compaction_tokens-append :
    (f : Usage → ℕ) (xs ys : List CompactionEvent)
    → compaction_tokens f (xs ++ ys) ≡ compaction_tokens f xs + compaction_tokens f ys
compaction_tokens-append f [] ys = omega arith
compaction_tokens-append f (x ∷ xs) ys = omega (arith, compaction_tokens-append f xs ys)

abbrev input_of : Usage → ℕ
input_of u = u.input_tokens

abbrev output_of : Usage → ℕ
output_of u = u.output_tokens

module _ {A : Type 0} where
  pub record Sound (l : Loop A) : Type 0 where
    pub paired : Paired l.transcript
    pub executed : All Executed l.steps
    pub input :
        l.usage.input_tokens
        ≡ step_tokens input_of l.steps + compaction_tokens input_of l.context.compactions
    pub output :
        l.usage.output_tokens
        ≡ step_tokens output_of l.steps + compaction_tokens output_of l.context.compactions

  step_tokens-append :
      (f : Usage → ℕ) (xs ys : List (AgentStep A))
      → step_tokens f (xs ++ ys) ≡ step_tokens f xs + step_tokens f ys
  step_tokens-append f [] ys = omega arith
  step_tokens-append f (x ∷ xs) ys = omega (arith, step_tokens-append f xs ys)

  PairedFrom-append :
      (pending : List String) (t u : List (Message A))
      → PairedFrom pending t
      → Paired u
      → PairedFrom pending (t ++ u)
  PairedFrom-append pending [] u h k = rw h k
  PairedFrom-append pending (user_message content ∷ t) u h k = (h.0, PairedFrom-append [] t u h.1 k)
  PairedFrom-append pending (assistant_message content calls ∷ t) u h k =
      (h.0, PairedFrom-append (ids calls) t u h.1 k)
  PairedFrom-append pending (tool_result id name content is_error ∷ t) u h k =
      (h.0, h.1, PairedFrom-append h.0 t u h.2 k)

  results-PairedFrom :
      (es : List (ToolExecution A)) → PairedFrom (execution_ids es) (map result_message es)
  results-PairedFrom [] = refl
  results-PairedFrom (e ∷ es) = (execution_ids es, refl, results-PairedFrom es)

  extend-Sound :
      (l : Loop A) (out : StepOutput A) (es : List (ToolExecution A))
      → Sound l
      → execution_ids es ≡ ids out.tool_calls
      → Sound (extend l out es)
  unfolding extend add_usage
  extend-Sound l out es h same =
      let s : AgentStep A = record { output = out; tool_executions = es } in
      record {
        paired =
            PairedFrom-append [] l.transcript _ h.paired (
              refl,
              subst (λ p. PairedFrom p (map result_message es)) same (results-PairedFrom es),
            );
        executed = All-append Executed l.steps (s ∷ []) h.executed (same, tt);
        input = rw (step_tokens-append input_of l.steps (s ∷ [])) (omega (arith, h.input));
        output = rw (step_tokens-append output_of l.steps (s ∷ [])) (omega (arith, h.output));
      }

  absorb-Sound :
      (l : Loop A) (c : Compacted A)
      → Sound l
      → Paired (transcript_of l.transcript c)
      → Sound (absorb l c)
  unfolding absorb add_usage
  absorb-Sound l unchanged h p = h
  absorb-Sound l failed h p = h
  absorb-Sound l (compacted t e) h p = record {
    paired = p;
    executed = h.executed;
    input =
        rw (compaction_tokens-append input_of l.context.compactions (e ∷ []))
          (omega (arith, h.input));
    output =
        rw (compaction_tokens-append output_of l.context.compactions (e ∷ []))
          (omega (arith, h.output));
  }

  absorb-steps : (l : Loop A) (c : Compacted A) → (absorb l c).steps ≡ l.steps
  unfolding absorb
  absorb-steps l unchanged = refl
  absorb-steps l failed = refl
  absorb-steps l (compacted t e) = refl

module _ {A I W : Type 0} where
  run_call-id :
      (agent : Agent A I W) (c : ToolCall A) (w : W) → (run_call agent c w).0.tool_call_id ≡ c.id
  unfolding run_call
  run_call-id agent c w = elim (Option-cases (tool_named agent c.name)) [
    | inl e ↦ rw (run_call, e)
    | inr (tool, e) ↦ rw (run_call, e)
  ]

  run_calls-ids :
      (agent : Agent A I W) (cs : List (ToolCall A)) (w : W)
      → execution_ids (run_calls agent cs w).0 ≡ ids cs
  unfolding run_calls
  run_calls-ids agent [] w = refl
  run_calls-ids agent (c ∷ cs) w =
      rw (run_call-id agent c w, run_calls-ids agent cs (run_call agent c w).1)

-- The end of a run of at most `most` rounds: the run that is returned shows the variables, it has
-- at most that many steps, it is completed by a last step without tool calls, whose text is the
-- final one, and it has reached the limit only after that many steps.
abbrev IsEnd : {A : Type 0} → (most : ℕ) → Loop A → AgentRun A → AgentStatus → Type 0
IsEnd {A} most l run completed =
    (before : List (AgentStep A)) × (last : AgentStep A) × (run.steps ≡ before ++ last ∷ [])
    × (last.output.tool_calls ≡ [])
    × (run.final_text ≡ last.output.text)
IsEnd most l run max_steps_reached = (length run.steps ≡ most) × (run.final_text ≡ "")

abbrev Ended : {A : Type 0} → (most : ℕ) → Loop A → Finished A → Type 0
Ended most l no_provider = length l.steps ≤ most
Ended most l (finished run) =
    (run.steps ≡ l.steps)
    × (run.usage ≡ l.usage)
    × (run.context ≡ l.context)
    × (length run.steps ≤ most)
    × IsEnd most l run run.status

List-cases : {A : Type 0} (xs : List A) → (xs ≡ []) ⊎ ((y : A) × (ys : List A) × (xs ≡ y ∷ ys))
List-cases [] = inl refl
List-cases (y ∷ ys) = inr (y, ys, refl)

Compacted-cases :
    {A : Type 0} (c : Compacted A)
    → (c ≡ failed)
      ⊎ ((c ≡ unchanged) ⊎ ((t : List (Message A)) × (e : CompactionEvent) × (c ≡ compacted t e)))
Compacted-cases failed = inl refl
Compacted-cases unchanged = inr (inl refl)
Compacted-cases (compacted t e) = inr (inr (t, e, refl))

extend-steps_length :
    {A : Type 0} (l : Loop A) (out : StepOutput A) (es : List (ToolExecution A))
    → length (extend l out es).steps ≡ suc (length l.steps)
unfolding extend
extend-steps_length l out es =
    rw (length-append l.steps ((record { output = out; tool_executions = es }) ∷ [])) (omega arith)

module _ {A I W : Type 0} (dumps : A → String) (summarize : String → W → Turned A × W)
    (turn : List (Message A) → W → Turned A × W) (agent : Agent A I W) where
  -- The last step's world is the one that a finished run leaves.
  unfoldable pub Arrives : Finished A → W → W → Type 0
  Arrives (finished run) u w = u ≡ w
  Arrives no_provider u w = Unit

  finished-Arrives : (run : AgentRun A) (w : W) → Arrives (finished run) w w
  unfolding Arrives
  finished-Arrives run w = refl

  no_provider-Arrives : (u w : W) → Arrives no_provider u w
  unfolding Arrives
  no_provider-Arrives u w = tt

  -- The steps lead from the first world to one that is the last unless no provider was available.
  abbrev pub Leads : W → Finished A × Loop A × W → Type 0
  Leads first r = (u : W) × Chain agent dumps summarize turn r.1.steps first u × Arrives r.0 u r.2

  -- The variables at the end are sound, the run ended within `most` steps, and these steps did what
  -- their calls say.
  abbrev pub Ran : W → ℕ → Finished A × Loop A × W → Type 0
  Ran first most r = Sound r.1 × Ended most r.1 r.0 × Leads first r

  module _ (first : W) where
    Steps : List (AgentStep A) → W → Type 0
    Steps steps w = Chain agent dumps summarize turn steps first w

    -- What the rest of the loop is to do.
    abbrev Continues : (left most : ℕ) (continue : Loop A → W → Finished A × Loop A × W) → Type 0
    Continues left most continue =
        (l : Loop A) (w : W)
        → Sound l
        → Steps l.steps w
        → length l.steps + left ≡ most
        → Ran first most (continue l w)

    after_turn-Ran :
        (continue : Loop A → W → Finished A × Loop A × W) (left most : ℕ)
        → Continues left most continue
        → (out : StepOutput A) (l : Loop A) (es : List (ToolExecution A)) (w : W)
        → Sound (extend l out es)
        → Steps (extend l out es).steps w
        → length l.steps + suc left ≡ most
        → (calls : List (ToolCall A)) → out.tool_calls ≡ calls
        → Ran first most
            (after_turn dumps summarize turn agent continue out (extend l out es) w calls)
    unfolding after_turn finish extend Steps
    after_turn-Ran continue left most go out l es w h d n [] e = (
      h,
      (
        refl,
        refl,
        refl,
        omega (arith, extend-steps_length l out es),
        (l.steps, record { output = out; tool_executions = es }, refl, e, refl),
      ),
      (w, d, finished-Arrives _ w),
    )
    after_turn-Ran continue left most go out l es w h d n (c ∷ cs) e =
        go (extend l out es) w h d (omega (arith, extend-steps_length l out es))

    take_turn-Ran :
        (continue : Loop A → W → Finished A × Loop A × W) (left most : ℕ)
        → Continues left most continue
        → (l : Loop A) (u w : W) → Sound l
        → Steps l.steps u
        → Folded agent dumps summarize turn u w
        → length l.steps + suc left ≡ most
        → Ran first most (take_turn dumps summarize turn agent continue l w)
    unfolding take_turn finish extend Steps
    take_turn-Ran continue left most go l u w h d f n =
        elim (Turned-cases (turn l.transcript w).0) [
          | inr e ↦ rw (take_turn, e) (h, omega arith, (u, d, no_provider-Arrives u _))
          | inl (out, e) ↦
              let w' = (turn l.transcript w).1 in
              let es = (run_calls agent out.tool_calls w').0 in
              let sound = extend-Sound l out es h (run_calls-ids agent out.tool_calls w') in
              let did =
                Chain-snoc agent dumps summarize turn l.steps
                  (record { output = out; tool_executions = es }) first u
                  (run_calls agent out.tool_calls w').1 d
                  (w, l.transcript, f, e, run_calls-Performs agent out.tool_calls w') in
              rw (take_turn, e)
                (after_turn-Ran continue left most go out l es (run_calls agent out.tool_calls w').1
                  sound did n out.tool_calls refl)
        ]

    run_rounds-Ran :
        (left index most : ℕ) (l : Loop A) (w : W)
        → Sound l
        → Steps l.steps w
        → length l.steps + left ≡ most
        → Ran first most (run_rounds dumps summarize turn agent left index l w)
    unfolding run_rounds finish absorb Steps
    run_rounds-Ran zero index most l w h d n =
        (h, (refl, refl, refl, omega arith, (omega arith, refl)), (w, d, finished-Arrives _ w))
    run_rounds-Ran (suc left) index most l w h d n =
        let step = maybe_compact dumps summarize agent.context_policy l.transcript index w in
        let p =
          maybe_compact-Paired dumps summarize agent.context_policy l.transcript index w h.paired in
        let f =
          maybe_compact-Folded agent dumps summarize turn agent.context_policy l.transcript index
            w in
        let go = run_rounds-Ran left (suc index) most in
        elim (Compacted-cases step.0) [
          | inl e ↦ rw (run_rounds, e) (h, omega arith, (w, d, no_provider-Arrives w _))
          | inr (inl e) ↦ rw (run_rounds, e) (take_turn-Ran _ left most go l w step.1 h d f n)
          | inr (inr (t, event, e)) ↦
              rw (run_rounds, e)
                (take_turn-Ran _ left most go (absorb l (compacted t event)) w step.1
                  (absorb-Sound l (compacted t event) h (rw e at p)) d f n)
        ]

  -- Every run of the agent ends, at any policy, after at most `max_steps` model turns: it is
  -- completed by a last step without tool calls whose text is the final one, or has run exactly
  -- `max_steps` steps, or no provider was available. At its end the transcript has one result after
  -- another for the calls of each assistant message and no other result, compaction or not; and the
  -- tokens used are the sum over the steps and the compactions. From the first world on, each step
  -- led from the world that the one before left, by at most one summary and one turn of the model,
  -- to performing all calls of this turn in order: the tool of a call's name ran once on its parsed
  -- arguments, and the execution has its answer or its exception; for an unknown tool or invalid
  -- arguments nothing ran, and the execution says so. A finished run leaves the world of its last
  -- step.
  pub run_agent-Ran :
      (user_input : String) (parts : List ContextPart) (w : W)
      → Ran w agent.max_steps (run_agent dumps summarize turn agent user_input parts w)
  unfolding run_agent start Steps
  run_agent-Ran user_input parts w =
      run_rounds-Ran w agent.max_steps 0 agent.max_steps (start user_input parts) w
        (record { paired = (refl, refl); executed = tt; input = refl; output = refl }) refl
        (omega arith)
