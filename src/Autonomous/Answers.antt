-- ===== src/Autonomous/Answers.antt =====
-- `_extract_json`, `_parse_plan` and `_parse_reflection` of agent.py. `loads` is json.loads, `str`
-- and `strip` are Python's on a JSON value and a text.
pub mod Plans
use Prim.Native.Char.{Char, code}
use ai_agents_enterprise.Prelude.{
  ℕ, zero, suc, String, Bool, true, false, not, Option, none, some, or_else, List, [], ◌∷◌, map,
  keep, take, nat_eq, ◌==◌, Dict, get, if◌then◌else◌,
}

-- The values that json.loads returns. Of a number stand its text and whether it is zero.
mutual
  pub data Json : Type 0 where
    null : Json
    boolean : Bool → Json
    number : (text : String) (is_zero : Bool) → Json
    text : String → Json
    array : Jsons → Json
    object : Fields → Json

  pub data Jsons : Type 0 where
    none_left : Jsons
    item : Json → Jsons → Jsons

  pub data Fields : Type 0 where
    no_fields : Fields
    field : String → Json → Fields → Fields

-- The suffix from the first occurrence of a character on.
abbrev pub from_first : Char → String → Option String
from_first c String.[] = none
from_first c (String.◌∷◌ d s) =
    let rest = from_first c s in if nat_eq (code d) (code c) then some (String.◌∷◌ d s) else rest

-- The prefix up to the last occurrence.
abbrev pub to_last : Char → String → Option String
to_last c String.[] = none
to_last c (String.◌∷◌ d s) = elim (to_last c s) [
  | some t ↦ some (String.◌∷◌ d t)
  | none ↦ if nat_eq (code d) (code c) then some (String.◌∷◌ d String.[]) else none
]

abbrev pub opener : Char
opener = "{"

abbrev pub closer : Char
closer = "}"

abbrev pub is_present : String → Bool
is_present s = not (s == "")

pub record Plan : Type 0 where
  pub steps : List String

pub record Reflection : Type 0 where
  pub goal_met : Bool
  pub missing : String
  pub next_focus : String

abbrev pub max_plan_steps : ℕ
max_plan_steps = 6

abbrev pub items_of : Jsons → List Json
items_of none_left = []
items_of (item j js) = j ∷ items_of js

abbrev pub keys_of : Fields → List Json
keys_of no_fields = []
keys_of (field k j fs) = text k ∷ keys_of fs

abbrev pub characters : String → List Json
characters String.[] = []
characters (String.◌∷◌ c s) = text (String.◌∷◌ c String.[]) ∷ characters s

-- `for s in value`; `none` is the TypeError of a value that is not iterable.
abbrev pub iterate : Json → Option (List Json)
iterate null = none
iterate (boolean b) = none
iterate (number t z) = none
iterate (text t) = some (characters t)
iterate (array js) = some (items_of js)
iterate (object fs) = some (keys_of fs)

-- A dict keeps the last value of a repeated key.
abbrev pub field_of : String → Fields → Option Json
field_of k no_fields = none
field_of k (field j v fs) = elim (field_of k fs) [
  | some w ↦ some w
  | none ↦ if j == k then some v else none
]

-- `isinstance(data, dict)`
abbrev pub object_in : Option Json → Option Fields
object_in (some (object fs)) = some fs
object_in _ = none

-- bool(value)
abbrev pub is_true : Json → Bool
is_true null = false
is_true (boolean b) = b
is_true (number t z) = not z
is_true (text t) = is_present t
is_true (array none_left) = false
is_true (array (item j js)) = true
is_true (object no_fields) = false
is_true (object (field k j fs)) = true

module _ (loads : String → Option Json) (str : Json → String) (strip : String → String) where
  unfoldable pub extract_json : String → Option Json
  extract_json t = elim (from_first opener t) [
    | none ↦ none
    | some s ↦ elim (to_last closer s) [ none ↦ none | some u ↦ loads u ]
  ]

  -- `[str(s).strip() for s in … if str(s).strip()]`
  abbrev pub stripped : List Json → List String
  stripped js = keep is_present (map (λ j. strip (str j)) js)

  -- The goal itself is the plan where no step is left.
  abbrev pub plan_or_goal : (goal : String) → List String → Plan
  plan_or_goal goal [] = record { steps = goal ∷ [] }
  plan_or_goal goal (s ∷ ss) = record { steps = take max_plan_steps (s ∷ ss) }

  -- The steps that an answer lists; `none` is the TypeError of steps that are not iterable.
  abbrev pub steps_of : Option Json → Option (List String)
  steps_of none = some []
  steps_of (some steps) = elim (iterate steps) [ none ↦ none | some js ↦ some (stripped js) ]

  abbrev pub listed_steps : Option Fields → Option (List String)
  listed_steps none = some []
  listed_steps (some fs) = steps_of (field_of "steps" fs)

  unfoldable pub parse_plan : (answer goal : String) → Option Plan
  parse_plan answer goal = elim (listed_steps (object_in (extract_json answer))) [
    | none ↦ none
    | some steps ↦ some (plan_or_goal goal steps)
  ]

  abbrev pub text_of : String → Fields → String
  text_of k fs = elim (field_of k fs) [ none ↦ "" | some j ↦ str j ]

  abbrev pub unparsed : Reflection
  unparsed = record {
    goal_met = false;
    missing = "could not parse reflect response";
    next_focus = "";
  }

  abbrev pub reflection_of : Fields → Json → Reflection
  reflection_of fs met = record {
    goal_met = is_true met;
    missing = text_of "missing" fs;
    next_focus = text_of "next_focus" fs;
  }

  unfoldable pub parse_reflection : (answer : String) → Reflection
  parse_reflection answer = elim (object_in (extract_json answer)) [
    | none ↦ unparsed
    | some fs ↦ elim (field_of "goal_met" fs) [ none ↦ unparsed | some met ↦ reflection_of fs met ]
  ]
