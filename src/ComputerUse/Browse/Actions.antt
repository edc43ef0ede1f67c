-- ===== src/ComputerUse/Browse/Actions.antt =====
-- The pure helpers of browse.py: the JSON object in a model's reply, and the policy on actions.
use Prim.Native.Char.{Char, code}
use ai_agents_enterprise.Prelude.{
  ℕ, zero, suc, ◌+◌, ◌-◌, String, count, Bool, true, false, not, ◌&&◌, ◌||◌, ◌==◌, Option, none,
  some, List, [], ◌∷◌, map, any, concat, join, leb, nat_eq, if◌then◌else◌,
}
use ai_agents_enterprise.Autonomous.Answers.{Json, Fields, no_fields, field, field_of, object_in}
use ai_agents_enterprise.ComputerUse.Runner.{contains}

-- The functions of Python that the helpers use.
pub record Python : Type 0 where
  pub loads : String → Option Json
  pub str : Json → String
  pub shown : ℕ → String
  pub lower : String → String
  pub strip : String → String
  pub without_separators : String → String
  pub is_digits : String → Bool

abbrev pub max_steps : ℕ
max_steps = 7

abbrev pub unsafe_tokens : List String
unsafe_tokens =
    "pay" ∷ "payment" ∷ "checkout" ∷ "purchase" ∷ "buy now" ∷ "place order" ∷ "confirm order"
    ∷ "delete account" ∷ []

abbrev pub sensitive_field_tokens : List String
sensitive_field_tokens =
    "card" ∷ "cc-number" ∷ "cardnumber" ∷ "cvv" ∷ "cvc" ∷ "iban" ∷ "password" ∷ "passwd" ∷ "ssn"
    ∷ []

abbrev pub is_char : Char → Char → Bool
is_char c d = nat_eq (code c) (code d)

-- The inner loop: the text from its opening brace to the brace that balances it, outside of quoted
-- parts. `none` is a text that ends before.
pub record Scan : Type 0 where
  pub depth : ℕ
  pub in_str : Bool
  pub esc : Bool

abbrev pub fresh_scan : Scan
fresh_scan = record { depth = 0; in_str = false; esc = false }

abbrev pub scan_char : Char → Scan → Scan
scan_char c s =
    if s.in_str
    then (if s.esc
        then record s { esc = false }
        else if is_char c "\\"
        then record s { esc = true }
        else if is_char c "\""
        then record s { in_str = false }
        else s)
    else if is_char c "\""
    then record s { in_str = true }
    else if is_char c "{"
    then record s { depth = s.depth + 1 }
    else if is_char c "}"
    then record s { depth = s.depth - 1 }
    else s

-- The character closes the object.
abbrev pub is_balanced : Char → Scan → Bool
is_balanced c s = not s.in_str && is_char c "}" && nat_eq s.depth 1

abbrev pub balanced_prefix : Scan → String → Option String
balanced_prefix s String.[] = none
balanced_prefix s (String.◌∷◌ c t) =
    let rest = balanced_prefix (scan_char c s) t in
    if is_balanced c s
    then some (String.◌∷◌ c String.[])
    else elim rest [ none ↦ none | some u ↦ some (String.◌∷◌ c u) ]

-- `_extract_json_object`
unfoldable pub extract_json_object : (loads : String → Option Json) → String → Option Fields
extract_json_object loads String.[] = none
extract_json_object loads (String.◌∷◌ c t) =
    let later = extract_json_object loads t in
    if is_char c "{"
    then elim (balanced_prefix fresh_scan (String.◌∷◌ c t)) [
      | none ↦ later
      | some u ↦ elim (loads u) [ none ↦ later | some j ↦ object_in (some j) ]
    ]
    else later

-- `action.values()`
abbrev pub values : Fields → List Json
values no_fields = []
values (field k j fs) = j ∷ values fs

abbrev pub first_chars : ℕ → String → String
first_chars zero t = ""
first_chars (suc n) String.[] = ""
first_chars (suc n) (String.◌∷◌ c t) = String.◌∷◌ c (first_chars n t)

module _ (py : Python) where
  open py use {str, lower, without_separators, is_digits}

  -- `str(action.get(key, ""))`
  abbrev pub text_at : String → Fields → String
  text_at key action = elim (field_of key action) [ none ↦ "" | some j ↦ str j ]

  unfoldable pub looks_like_card_number : String → Bool
  looks_like_card_number value =
      let digits = without_separators value in
      is_digits digits && leb 13 (count digits) && leb (count digits) 19

  abbrev pub field_text : Fields → String
  field_text action = lower (
      concat (
        text_at "selector" action
        ∷ " "
        ∷ text_at "name" action
        ∷ " "
        ∷ text_at "placeholder" action
        ∷ []))

  unfoldable pub is_sensitive_type : Fields → Bool
  is_sensitive_type action =
      text_at "action" action == "type"
      && (any (λ token. contains token (field_text action)) sensitive_field_tokens
          || looks_like_card_number (text_at "text" action))

  -- One of the tokens of a transaction stands in the values of the action.
  unfoldable pub names_transaction : Fields → Bool
  names_transaction action =
      any (λ token. contains token (lower (join " " (map str (values action))))) unsafe_tokens

  unfoldable pub is_unsafe : Fields → (sensitive_entered : Bool) → Bool
  is_unsafe action sensitive_entered =
      names_transaction action || (sensitive_entered && text_at "action" action == "click")
