-- ===== src/ComputerUse/Browse/Page.antt =====
-- What browse.py passes around: the page as an argument, its observations, the steps of a run, and
-- what the loop keeps. The texts of the steps are the code's.
use ai_agents_enterprise.Prelude.{
  ℕ, ◌+◌, String, Bool, true, false, ◌||◌, Option, none, some, is_some, or_else, List, [], ◌∷◌,
  ◌++◌, map, concat, join, if◌then◌else◌,
}
use ai_agents_enterprise.Runtime.Types.{Turned}
use ai_agents_enterprise.Autonomous.Answers.{Fields, no_fields, field, text, field_of, is_present}
use ai_agents_enterprise.Netguard.{Net, Unsafe}
use ai_agents_enterprise.ComputerUse.Browse.Actions.{Python, first_chars}

pub record PageElement : Type 0 where
  pub selector : String
  pub kind : String
  pub label : String

pub record Observation : Type 0 where
  pub title : String
  pub url : String
  pub elements : List PageElement
  pub snapshot : String

pub record BrowseStep : Type 0 where
  pub observation_summary : String
  pub action : Fields
  pub note : Option String

pub record BrowseResult : Type 0 where
  pub url : String
  pub goal : String
  pub steps : List BrowseStep
  pub answer : String
  pub completed : Bool
  pub provider : Option String
  pub cost_usd : Option ℕ

-- What an operation of the page does: it returns, or raises with its type and text.
pub data Effect : Type 0 where
  done : Effect
  failed : String → Effect

pub record Web (A W : Type 0) : Type 0 where
  pub net : Net W
  pub py : Python
  pub unsafe_text : Unsafe → String
  pub step : String → W → Turned A × W
  pub create : W → Effect × W
  pub goto : String → W → Effect × W
  pub observe : W → Option Observation × W
  pub click : String → W → Effect × W
  pub type_text : (selector value : String) → W → Effect × W
  pub close : W → W

-- What the page was asked to do.
pub data Deed : Type 0 where
  opened : (url : String) → Deed
  clicked : (action : Fields) → Deed
  filled_in : (action : Fields) → Deed

pub record Progress : Type 0 where
  pub steps : List BrowseStep
  pub answer : String
  pub completed : Bool
  pub provider : Option String
  pub cost_usd : Option ℕ
  pub sensitive_entered : Bool

pub record Performed : Type 0 where
  pub note : Option String
  pub stop : Bool
  pub sensitive : Bool
  pub deed : Option Deed

-- A round goes on, ends the loop, or an exception leaves `run_browse`.
pub data Round : Type 0 where
  again : Progress → Option Deed → Round
  ended : Progress → Option Deed → Round
  crashed : Round

pub data Outcome : Type 0 where
  result : BrowseResult → Outcome
  raised : Outcome

abbrev pub deeds_of : Option Deed → List Deed
deeds_of none = []
deeds_of (some d) = d ∷ []

abbrev pub element_line : PageElement → String
element_line e = concat ("  [" ∷ e.kind ∷ "] " ∷ e.selector ∷ " — " ∷ e.label ∷ [])

abbrev pub or_empty : List String → List String
or_empty [] = "  (none)" ∷ []
or_empty (l ∷ ls) = l ∷ ls

unfoldable pub render_observation : Observation → String
render_observation obs = join "\n" (
    concat ("TITLE: " ∷ obs.title ∷ [])
    ∷ concat ("URL: " ∷ obs.url ∷ [])
    ∷ "ELEMENTS:"
    ∷ (or_empty (map element_line obs.elements)
        ++ "TEXT SNAPSHOT:" ∷ (if is_present obs.snapshot then obs.snapshot else "(empty)") ∷ []))

abbrev pub add_step : BrowseStep → Progress → Progress
add_step s p = record p { steps = p.steps ++ s ∷ [] }

abbrev pub start : Progress
start = record {
  steps = [];
  answer = "";
  completed = false;
  provider = none;
  cost_usd = none;
  sensitive_entered = false;
}

-- The provider and the cost of a turn.
abbrev pub absorb_turn : (provider : String) → (cost : Option ℕ) → Progress → Progress
absorb_turn provider cost p = record p {
  provider = if is_present provider then some provider else p.provider;
  cost_usd = elim cost [ none ↦ p.cost_usd | some c ↦ some (or_else p.cost_usd 0 + c) ];
}

abbrev pub prompt_of : (goal : String) → Observation → String
prompt_of goal obs = concat (
    "GOAL: "
    ∷ goal
    ∷ "\n\nCURRENT PAGE OBSERVATION:\n"
    ∷ render_observation obs
    ∷ "\n\nReply with ONE JSON action object."
    ∷ [])

-- A deed that was tried; one that raised stops the loop.
abbrev pub tried : Effect → (sensitive : Bool) → Deed → Performed
tried done sensitive d = record { note = none; stop = false; sensitive = sensitive; deed = some d }
tried (failed why) sensitive d = record {
  note = some (concat ("action failed: " ∷ why ∷ []));
  stop = true;
  sensitive = sensitive;
  deed = some d;
}

abbrev pub do_nothing : (note : String) → (sensitive : Bool) → Performed
do_nothing note sensitive = record {
  note = some note;
  stop = true;
  sensitive = sensitive;
  deed = none;
}

-- What is left of a round after the action is performed.
abbrev pub noted : (summary : String) → Fields → Performed → Progress → Round
noted summary action done_now p =
    let s : BrowseStep = record {
      observation_summary = summary;
      action = action;
      note = done_now.note;
    } in
    let p' = add_step s (record p { sensitive_entered = done_now.sensitive }) in
    if done_now.stop then ended p' done_now.deed else again p' done_now.deed

abbrev pub raw_action : String → Fields
raw_action reply = field "raw" (text (first_chars 200 reply)) no_fields

abbrev pub unparsed : (summary reply : String) → Progress → Round
unparsed summary reply p =
    ended
      (add_step
        (record {
          observation_summary = summary;
          action = raw_action reply;
          note = some "could not parse a JSON action; stopping";
        })
        p)
      none

abbrev pub named_action : Option Fields → Option Fields
named_action none = none
named_action (some action) = if is_some (field_of "action" action) then some action else none

abbrev pub conclude : (url goal : String) → Progress → BrowseResult
conclude url goal p = record {
  url = url;
  goal = goal;
  steps = p.steps;
  answer =
      if p.completed || is_present p.answer
      then p.answer
      else "Goal not completed within the step budget.";
  completed = p.completed;
  provider = p.provider;
  cost_usd = p.cost_usd;
}

abbrev pub outcome_of : (url goal : String) → Option Progress → Outcome
outcome_of url goal none = raised
outcome_of url goal (some p) = result (conclude url goal p)
