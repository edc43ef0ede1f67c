-- ===== src/Runtime/Context.antt =====
-- `ContextEngine` of context.py: the token estimate, the system prompt, and compaction. The summary
-- is one turn of the router, `summarize`, and `dumps` is json.dumps. The ratio of the policy is a
-- percentage.
pub mod Pairing
use ai_agents_enterprise.Prelude.{
  ℕ, zero, suc, ◌+◌, ◌-◌, ◌*◌, ◌/◌, String, count, concat, join, Bool, true, false, Option, none,
  some, List, [], ◌∷◌, ◌++◌, map, length, take, drop, leb, ltb, if◌then◌else◌, ◌==◌,
}
use ai_agents_enterprise.Runtime.Types.{
  Message, user_message, assistant_message, tool_result, ToolCall, StepOutput, ContextPart,
  CompactionEvent, Turned, turned, unavailable,
}

abbrev pub chars_per_token : ℕ
chars_per_token = 4

abbrev pub per_item_overhead : ℕ
per_item_overhead = 4

abbrev pub summary_marker : String
summary_marker = "[conversation summary — earlier turns compacted]"

pub record ContextPolicy : Type 0 where
  pub max_context_tokens : ℕ
  pub compact_trigger_percent : ℕ
  pub keep_recent_items : ℕ
  pub summary_max_tokens : ℕ

-- The parts without content are left out.
abbrev pub sections : List ContextPart → List String
sections [] = []
sections (p ∷ parts) =
    let rest = sections parts in
    if p.content == ""
    then rest
    else concat ("<" ∷ p.name ∷ ">\n" ∷ p.content ∷ "\n</" ∷ p.name ∷ ">" ∷ []) ∷ rest

unfoldable pub render_system : List ContextPart → String
render_system parts = join "\n\n" (sections parts)

abbrev pub part_of : String → String → List String → List ContextPart
part_of name separator [] = []
part_of name separator (t ∷ ts) = record { name = name; content = join separator (t ∷ ts) } ∷ []

-- An absent list is an empty one, and an absent task state an empty text.
unfoldable pub build :
    (instructions : String) (memory retrieved : List String) (task_state : String)
    → List ContextPart
build instructions memory retrieved task_state =
    record { name = "instructions"; content = instructions } ∷ part_of "memory" "\n" memory
    ++ part_of "retrieved_context" "\n\n" retrieved
    ++ (if task_state == "" then [] else record { name = "task_state"; content = task_state } ∷ [])

abbrev pub is_tool_result : {A : Type 0} → Message A → Bool
is_tool_result (tool_result id name content is_error) = true
is_tool_result _ = false

-- The transcript and the event, or the error of the router.
pub data Compacted (A : Type 0) : Type 0 where
  unchanged : Compacted A
  compacted : List (Message A) → CompactionEvent → Compacted A
  failed : Compacted A

module _ {A : Type 0} where
  -- The `while` loop of `choose_cut`, as the number of its rounds from a suffix on.
  unfoldable pub leading_results : List (Message A) → ℕ
  leading_results [] = 0
  leading_results (m ∷ t) = let rest = leading_results t in if is_tool_result m then suc rest else 0

  unfoldable pub choose_cut : List (Message A) → (keep_recent_items : ℕ) → ℕ
  choose_cut t keep_recent_items =
      let cut = length t - keep_recent_items in cut + leading_results (drop cut t)

module _ {A : Type 0} (dumps : A → String) where
  abbrev pub call_tokens : List (ToolCall A) → ℕ
  call_tokens [] = 0
  call_tokens (c ∷ cs) =
      (count c.name + count (dumps c.arguments)) / chars_per_token + call_tokens cs

  abbrev pub item_tokens : Message A → ℕ
  item_tokens (user_message content) = count content / chars_per_token
  item_tokens (assistant_message content calls) =
      count content / chars_per_token + call_tokens calls
  item_tokens (tool_result id name content is_error) = count content / chars_per_token

  unfoldable pub estimate_tokens : List (Message A) → ℕ
  estimate_tokens [] = 0
  estimate_tokens (m ∷ t) = per_item_overhead + item_tokens m + estimate_tokens t

  abbrev pub call_lines : List (ToolCall A) → List String
  call_lines [] = []
  call_lines (c ∷ cs) =
      concat ("assistant → tool " ∷ c.name ∷ "(" ∷ dumps c.arguments ∷ ")" ∷ []) ∷ call_lines cs

  abbrev pub item_lines : Message A → List String
  item_lines (user_message content) = concat ("user: " ∷ content ∷ []) ∷ []
  item_lines (assistant_message content calls) =
      (if content == "" then [] else concat ("assistant: " ∷ content ∷ []) ∷ []) ++ call_lines calls
  item_lines (tool_result id name content is_error) =
      concat ("tool " ∷ name ∷ " [" ∷ (if is_error then "error" else "ok") ∷ "]: " ∷ content ∷ [])
      ∷ []

  abbrev pub transcript_lines : List (Message A) → List String
  transcript_lines [] = []
  transcript_lines (m ∷ t) = item_lines m ++ transcript_lines t

  unfoldable pub render_transcript : List (Message A) → String
  render_transcript t = join "\n" (transcript_lines t)

  unfoldable pub should_compact : ContextPolicy → List (Message A) → Bool
  should_compact policy t =
      leb (policy.max_context_tokens * policy.compact_trigger_percent) (estimate_tokens t * 100)

  unfoldable pub compact : List (Message A) → (cut step : ℕ) → StepOutput A → Compacted A
  compact t cut step out =
      let t' = user_message (concat (summary_marker ∷ "\n" ∷ out.text ∷ [])) ∷ drop cut t in
      compacted t' (record {
        step = step;
        tokens_before = estimate_tokens t;
        tokens_after = estimate_tokens t';
        summarized_items = length (take cut t);
        usage = out.usage;
        cost_usd = out.cost_usd;
      })

  module _ {W : Type 0} (summarize : String → W → Turned A × W) where
    unfoldable pub maybe_compact :
        ContextPolicy → List (Message A) → (step : ℕ) → W → Compacted A × W
    maybe_compact policy t step w =
        let cut = choose_cut t policy.keep_recent_items in
        let (turn, w') = summarize (render_transcript (take cut t)) w in
        if should_compact policy t
        then if ltb cut 2
          then (unchanged, w)
          else elim turn [ turned out ↦ (compact t cut step out, w') | unavailable ↦ (failed, w') ]
        else (unchanged, w)
