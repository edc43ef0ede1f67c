-- ===== src/ComputerUse/Browse/Tests.antt =====
-- A page on which a model types a card number and then clicks on.
use ai_agents_enterprise.Prelude.{
  ℕ, zero, suc, String, ◌≡◌, refl, none, some, List, [], ◌∷◌, length, concat, join, ◌==◌,
  if◌then◌else◌,
}
use ai_agents_enterprise.Runtime.Types.{Turned, turned, no_usage}
use ai_agents_enterprise.Autonomous.Answers.{
  Fields, no_fields, field, object, text, null, boolean, number, array,
}
use ai_agents_enterprise.Netguard.{assert_public_url, check_host, check_resolved, ip_is_public}
use ai_agents_enterprise.Netguard.Tests.{net}
use ai_agents_enterprise.ComputerUse.Browse.Actions.{
  Python, max_steps, extract_json_object, looks_like_card_number, is_sensitive_type,
  names_transaction, is_unsafe,
}
use ai_agents_enterprise.ComputerUse.Browse.Page.{
  Web, done, Observation, Deed, opened, filled_in, Outcome, result, raised, render_observation,
}
use ai_agents_enterprise.ComputerUse.Browse.{
  summarize_observation, do_click, do_type, do_navigate, perform_action, act_on, answer_turn,
  browse_round, browse_loop, drive_page, run_browse,
}
use ai_agents_enterprise.ComputerUse.Browse.Policy.Runs.{SafeRun, run_browse-SafeRun}

abbrev type_card : Fields
type_card =
    field "action" (text "type")
      (field "selector" (text "#card") (field "text" (text "4111") no_fields))

abbrev click_on : Fields
click_on = field "action" (text "click") (field "selector" (text "#continue") no_fields)

abbrev py : Python
py = record {
  loads = λ t.
      if t == "{type}"
      then some (object type_card)
      else if t == "{click}"
      then some (object click_on)
      else none;
  str = λ j. elim j [
    | text t ↦ t
    | null ↦ "None"
    | boolean b ↦ if b then "True" else "False"
    | number t z ↦ t
    | array js ↦ "[]"
    | object fs ↦ "{}"
  ];
  shown = λ n. "n";
  lower = λ t. t;
  strip = λ t. t;
  without_separators = λ t. t;
  is_digits = λ t. t == "4111";
}

abbrev replied : String → Turned ℕ
replied t = turned (record {
  text = t;
  tool_calls = [];
  provider = "mock";
  model = "mock";
  usage = no_usage;
  cost_usd = some 1;
  latency_ms = 0;
  attempts = [];
})

abbrev page : Observation
page = record { title = "Shop"; url = "https://example.org"; elements = []; snapshot = "" }

-- The world counts the turns of the model.
abbrev web : Web ℕ ℕ
web = record {
  net = net;
  py = py;
  unsafe_text = λ why. "unsafe";
  step = λ prompt w.
      (elim w [ zero ↦ replied "first {type} then {click}" | suc n ↦ replied "{click}" ], suc w);
  create = λ w. (done, w);
  goto = λ url w. (done, w);
  observe = λ w. (some page, w);
  click = λ selector w. (done, w);
  type_text = λ selector value w. (done, w);
  close = λ w. w;
}

abbrev deeds : List Deed
deeds = (run_browse web "example.org" "buy" max_steps 0).1

abbrev steps_of : Outcome → ℕ
steps_of (result r) = length r.steps
steps_of raised = 0

-- The click after the card number is refused, and the run ends.
deeds-card :
    (deeds ≡ opened "example.org" ∷ filled_in type_card ∷ [])
    × (steps_of (run_browse web "example.org" "buy" max_steps 0).0 ≡ 2)
unfolding run_browse drive_page browse_loop browse_round answer_turn act_on perform_action do_click
    do_type do_navigate render_observation summarize_observation extract_json_object
    looks_like_card_number is_sensitive_type names_transaction is_unsafe assert_public_url
    check_host check_resolved ip_is_public concat join
deeds-card = (refl, refl)

run_browse-SafeRun_example : SafeRun web 7 (run_browse web "example.org" "buy" 7 0)
run_browse-SafeRun_example = run_browse-SafeRun web "example.org" "buy" 7 0
