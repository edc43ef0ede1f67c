-- ===== src/ComputerUse/Browse.antt =====
-- apps/computer_use_qa, workbench_app_cua/browse.py: `run_browse`, which drives a live page toward
-- a goal. The page is an argument, whose operations return or raise, the model's turn is `step`,
-- and the guard is the model of netguard.py. Beside its result stand the deeds that the page was
-- asked for.
pub mod Actions
pub mod Page
pub mod Policy
mod Tests
use ai_agents_enterprise.Prelude.{
  ℕ, zero, suc, ◌+◌, ◌-◌, String, count, Bool, true, false, not, ◌&&◌, ◌||◌, ◌==◌, Option, none,
  some, is_some, or_else, List, [], ◌∷◌, ◌++◌, map, length, concat, join, if◌then◌else◌,
}
use ai_agents_enterprise.Runtime.Types.{StepOutput, Turned, turned, unavailable}
use ai_agents_enterprise.Autonomous.Answers.{
  Json, Fields, no_fields, field, text, field_of, is_present,
}
use ai_agents_enterprise.Netguard.{Net, Unsafe, safe, unsafe, assert_public_url}
use Actions.{Python, extract_json_object, first_chars, text_at, is_sensitive_type, is_unsafe}
use Page.{
  PageElement, Observation, BrowseStep, BrowseResult, Effect, done, failed, Web, Deed, opened,
  clicked, filled_in, Progress, Performed, Round, again, ended, crashed, Outcome, result, raised,
  deeds_of, element_line, or_empty, render_observation, add_step, start, absorb_turn, prompt_of,
  tried, do_nothing, noted, raw_action, unparsed, named_action, conclude, outcome_of,
}

module _ {A W : Type 0} (web : Web A W) where
  open web use {net, py, unsafe_text, step}
  open py use {loads, shown, strip}

  abbrev at_key : String → Fields → String
  at_key key action = text_at py key action

  unfoldable pub summarize_observation : Observation → String
  summarize_observation obs = concat (
      (if is_present obs.title then obs.title else "(untitled)")
      ∷ " @ "
      ∷ obs.url
      ∷ " ("
      ∷ shown (length obs.elements)
      ∷ " interactable)"
      ∷ [])

  -- The click, type and navigate of a round.
  unfoldable pub do_click : Fields → (sensitive : Bool) → W → Performed × W
  do_click action sensitive w =
      let (e, w') = web.click (at_key "selector" action) w in
      (tried e sensitive (clicked action), w')

  unfoldable pub do_type : Fields → (sensitive : Bool) → W → Performed × W
  do_type action sensitive w =
      let (e, w') = web.type_text (at_key "selector" action) (at_key "text" action) w in
      let now = sensitive || is_sensitive_type py action in
      (tried e (elim e [ done ↦ now | failed why ↦ sensitive ]) (filled_in action), w')

  unfoldable pub do_navigate : Fields → (sensitive : Bool) → W → Performed × W
  do_navigate action sensitive w =
      let target = at_key "url" action in
      let (checked, w1) = assert_public_url net target w in
      elim checked [
        | unsafe why ↦ (
          do_nothing
              (concat
                ("refused: unsafe navigate blocked by safety policy: " ∷ unsafe_text why ∷ []))
              sensitive,
          w1,
        )
        | safe url ↦ let (e, w2) = web.goto target w1 in (tried e sensitive (opened target), w2)
      ]

  unfoldable pub perform_action : (kind : String) → Fields → (sensitive : Bool) → W → Performed × W
  perform_action kind action sensitive w =
      if kind == "click"
      then do_click action sensitive w
      else if kind == "type"
      then do_type action sensitive w
      else if kind == "navigate"
      then do_navigate action sensitive w
      else (do_nothing (concat ("unknown action: " ∷ kind ∷ "; stopping" ∷ [])) sensitive, w)

  unfoldable pub act_on : (summary : String) → Fields → Progress → W → Round × W
  act_on summary action p w =
      let kind = at_key "action" action in
      if kind == "finish"
      then (
        ended
            (add_step (record { observation_summary = summary; action = action; note = none })
              (record p { answer = strip (at_key "answer" action); completed = true }))
            none,
        w,
      )
      else if is_unsafe py action p.sensitive_entered
      then (
        ended
            (add_step
              (record {
                observation_summary = summary;
                action = action;
                note = some "refused: payment/sensitive/destructive action blocked by policy";
              })
              p)
            none,
        w,
      )
      else let (done_now, w') = perform_action kind action p.sensitive_entered w in
        (noted summary action done_now p, w')

  unfoldable pub answer_turn : Observation → Turned A → Progress → W → Round × W
  answer_turn obs unavailable p w = (
    ended
        (add_step
          (record {
            observation_summary = summarize_observation obs;
            action = field "action" (text "finish") no_fields;
            note = some "no model provider available";
          })
          p)
        none,
    w,
  )
  answer_turn obs (turned out) p w =
      let p' = absorb_turn out.provider out.cost_usd p in
      elim (named_action (extract_json_object loads out.text)) [
        | none ↦ (unparsed (summarize_observation obs) out.text p', w)
        | some action ↦ act_on (summarize_observation obs) action p' w
      ]

  -- One pass of the loop.
  unfoldable pub browse_round : (goal : String) → Progress → W → Round × W
  browse_round goal p w =
      let (seen, w1) = web.observe w in
      elim seen [
        | none ↦ (crashed, w1)
        | some obs ↦ let (out, w2) = step (prompt_of goal obs) w1 in answer_turn obs out p w2
      ]

  -- `none` is an exception that leaves the loop.
  unfoldable pub browse_loop :
      (left : ℕ) → (goal : String) → Progress → W → Option Progress × List Deed × W
  browse_loop zero goal p w = (some p, [], w)
  browse_loop (suc left) goal p w =
      let (r, w1) = browse_round goal p w in
      elim r [
        | crashed ↦ (none, [], w1)
        | ended p' d ↦ (some p', deeds_of d, w1)
        | again p' d ↦
            let (out, deeds, w2) = browse_loop left goal p' w1 in (out, deeds_of d ++ deeds, w2)
      ]

  abbrev pub refused_start : (url goal : String) → Unsafe → BrowseResult
  refused_start url goal why = record {
    url = url;
    goal = goal;
    steps =
        record {
          observation_summary = concat ("(not opened) " ∷ url ∷ []);
          action = field "action" (text "navigate") (field "url" (text url) no_fields);
          note = some (
              concat
                ("refused: unsafe start url blocked by safety policy: " ∷ unsafe_text why ∷ []));
        }
        ∷ [];
    answer = concat ("Refused to open unsafe URL: " ∷ unsafe_text why ∷ []);
    completed = false;
    provider = none;
    cost_usd = none;
  }

  -- The page from its first `goto` to its `close`.
  unfoldable pub drive_page : (url goal : String) → (most : ℕ) → W → Outcome × List Deed × W
  drive_page url goal most w =
      let (e, w1) = web.goto url w in
      elim e [
        | failed why ↦ (raised, opened url ∷ [], web.close w1)
        | done ↦
            let (out, deeds, w2) = browse_loop most goal start w1 in
            (outcome_of url goal out, opened url ∷ deeds, web.close w2)
      ]

  unfoldable pub run_browse : (url goal : String) → (most : ℕ) → W → Outcome × List Deed × W
  run_browse url goal most w =
      let (checked, w1) = assert_public_url net url w in
      elim checked [
        | unsafe why ↦ (result (refused_start url goal why), [], w1)
        | safe u ↦
            let (e, w2) = web.create w1 in
            elim e [ failed why ↦ (raised, [], w2) | done ↦ drive_page url goal most w2 ]
      ]
