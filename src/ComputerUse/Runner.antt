-- ===== src/ComputerUse/Runner.antt =====
-- apps/computer_use_qa, workbench_app_cua/runner.py: the guarded actions and the scenario runner
-- over the tool gateway. The dict form of a screen is the screen. The session that the handlers
-- share is part of the world, beside the clocks' time, which `elapse` moves on while a handler
-- runs.
pub mod Checked
pub mod Reports
use text.Mathlib.Text.{find?}
use ai_agents_enterprise.Prelude.{
  ℕ, ◌-◌, String, Bool, true, false, not, ◌==◌, Option, none, some, is_some, or_else, List, [], ◌∷◌,
  ◌++◌, map, length, all, any, keep, Dict, get, concat, join, if◌then◌else◌,
}
use ai_agents_enterprise.ToolGateway.{
  ToolSpec, ToolResult, AuditEntry, Handled, returned, Clock, ToolGateway, register, call,
}
use ai_agents_enterprise.ComputerUse.Sandbox.{
  Page, page_text, Element, Screen, ActionKind, observing, clicking, typing, kind_text, Action,
  UiSession, new_session, observe, act,
}

abbrev pub allowlist : List String
allowlist = "observe" ∷ "click" ∷ "type" ∷ []

pub record Desk (T : Type 0) : Type 0 where
  pub session : UiSession
  pub time : T

pub record Step : Type 0 where
  pub action : Action
  pub expect_state : Option String
  pub expect_text : Option String
  pub expect_error : Option Bool

pub record Scenario : Type 0 where
  pub name : String
  pub description : String
  pub steps : List Step

pub record StepResult : Type 0 where
  pub description : String
  pub passed : Bool
  pub detail : String

pub record Bug : Type 0 where
  pub scenario : String
  pub expected : String
  pub actual : String

pub record ScenarioResult : Type 0 where
  pub name : String
  pub description : String
  pub passed : Bool
  pub steps : List StepResult

pub record QaReport : Type 0 where
  pub scenarios : List ScenarioResult
  pub bugs : List Bug
  pub passed : ℕ
  pub failed : ℕ
  pub action_trace : List (AuditEntry (Dict String))
  pub summary : String
  pub provider : String
  pub cost_usd : Option ℕ

-- `needle in hay`
abbrev pub contains : (needle hay : String) → Bool
contains needle hay = is_some (find? hay needle)

abbrev pub filled : Option String → Bool
filled none = false
filled (some t) = not (t == "")

-- `_describe`
abbrev pub described_action : Action → String
described_action a = elim a.kind [
  | observing ↦ "observe"
  | clicking ↦
      concat ("click " ∷ a.target ∷ (if a.value == "" then [] else "='" ∷ a.value ∷ "'" ∷ []))
  | typing ↦ concat ("type " ∷ a.target ∷ (if a.value == "" then [] else "='" ∷ a.value ∷ "'" ∷ []))
]

abbrev pub described_error : Option Bool → List String
described_error none = []
described_error (some true) = "shows error" ∷ []
described_error (some false) = "no error" ∷ []

abbrev pub expectations : Step → List String
expectations step =
    (if filled step.expect_state
      then concat ("→ " ∷ or_else step.expect_state "" ∷ []) ∷ []
      else [])
    ++ (if filled step.expect_text
        then concat ("shows '" ∷ or_else step.expect_text "" ∷ "'" ∷ []) ∷ []
        else [])
    ++ described_error step.expect_error

abbrev pub in_parentheses : List String → String
in_parentheses [] = ""
in_parentheses (e ∷ es) = concat (" (" ∷ join ", " (e ∷ es) ∷ ")" ∷ [])

unfoldable pub describe : Step → String
describe step = concat (described_action step.action ∷ in_parentheses (expectations step) ∷ [])

-- The dict of an action without its kind.
abbrev pub arguments_of : Action → Dict String
arguments_of a = ("target", a.target) ∷ ("value", a.value) ∷ []

abbrev pub argument : String → Dict String → String
argument key args = or_else (get args key) ""

abbrev pub spec_of : (name description : String) → ToolSpec (Dict String)
spec_of name description = record { name = name; description = description; input_schema = [] }

abbrev pub state_check : Screen → Option String → List (Bool × String)
state_check screen none = []
state_check screen (some state) =
    (
      page_text screen.page == state,
      concat ("state=" ∷ page_text screen.page ∷ ", expected " ∷ state ∷ []),
    )
    ∷ []

abbrev pub same : Bool → Bool → Bool
same true b = b
same false b = not b

abbrev pub error_check : Screen → Option Bool → List (Bool × String)
error_check screen none = []
error_check screen (some expected) =
    let has_err = is_some screen.error in
    (
      same has_err expected,
      concat (
          "error="
          ∷ (if has_err then "shown" else "none")
          ∷ ", expected "
          ∷ (if expected then "an error" else "no error")
          ∷ []),
    )
    ∷ []

abbrev pub bugs_of : Scenario → StepResult → List Bug
bugs_of scenario r =
    if r.passed
    then []
    else record { scenario = scenario.name; expected = r.description; actual = r.detail } ∷ []

abbrev pub observe_spec : ToolSpec (Dict String)
observe_spec = spec_of "observe" "Read the current screen."

abbrev pub click_spec : ToolSpec (Dict String)
click_spec = spec_of "click" "Click a control by id."

abbrev pub type_spec : ToolSpec (Dict String)
type_spec = spec_of "type" "Type a value into an input by id."

module _ (lower : String → String) where
  -- `_screen_has_text`
  unfoldable pub screen_has_text : Screen → (needle : String) → Bool
  screen_has_text screen needle =
      any (λ e. contains (lower needle) (lower (concat (e.label ∷ e.value ∷ [])))) screen.elements

  abbrev pub text_check : Screen → Option String → List (Bool × String)
  text_check screen none = []
  text_check screen (some needle) =
      (screen_has_text screen needle, concat ("text '" ∷ needle ∷ "' not found on screen" ∷ []))
      ∷ []

  abbrev pub checks : Step → Option Screen → List (Bool × String)
  checks step none =
      (false, concat ("action " ∷ kind_text step.action.kind ∷ " returned nothing" ∷ [])) ∷ []
  checks step (some screen) =
      state_check screen step.expect_state
      ++ text_check screen step.expect_text
      ++ error_check screen step.expect_error

  unfoldable pub step_result : Step → Option Screen → StepResult
  step_result step screen =
      let found = checks step screen in
      record {
        description = describe step;
        passed = all (λ c. c.0) found;
        detail = join "; " (map (λ c. c.1) (keep (λ c. not c.0) found));
      }

module _ (strip lower : String → String) {T : Type 0} (clock : Clock (Desk T))
    (elapse : T → T) where
  abbrev pub Gateway : Type 0
  Gateway = ToolGateway (Dict String) Screen (Desk T)

  abbrev pub observe_handler : Dict String → Desk T → Handled Screen × Desk T
  observe_handler args w = (returned (observe w.session), record w { time = elapse w.time })

  abbrev pub click_handler : Dict String → Desk T → Handled Screen × Desk T
  click_handler args w =
      let (screen, s) =
        act strip (record { kind = clicking; target = argument "target" args; value = "" })
          w.session in
      (returned screen, record { session = s; time = elapse w.time })

  abbrev pub type_handler : Dict String → Desk T → Handled Screen × Desk T
  type_handler args w =
      let a : Action = record {
        kind = typing;
        target = argument "target" args;
        value = argument "value" args;
      } in
      let (screen, s) = act strip a w.session in
      (returned screen, record { session = s; time = elapse w.time })

  unfoldable pub build_cua_gateway : Gateway
  build_cua_gateway = register type_spec type_handler (
      register click_spec click_handler (
        register observe_spec observe_handler
          (record { tools = []; audit = []; audit_sink = none })))

  -- The loop over the steps.
  unfoldable pub run_steps :
      Scenario → List Step → Gateway → Desk T → List StepResult × List Bug × Gateway × Desk T
  run_steps scenario [] gw w = ([], [], gw, w)
  run_steps scenario (step ∷ steps) gw w =
      let (result, gw1, w1) =
        call clock (kind_text step.action.kind) (arguments_of step.action) (some allowlist) gw w in
      let r = step_result lower step result.output in
      let (rs, bugs, gw2, w2) = run_steps scenario steps gw1 w1 in
      (r ∷ rs, bugs_of scenario r ++ bugs, gw2, w2)

  unfoldable pub run_scenario :
      Scenario → Gateway → Desk T → ScenarioResult × List Bug × Gateway × Desk T
  run_scenario scenario gw w =
      let (rs, bugs, gw', w') = run_steps scenario scenario.steps gw w in
      (
        record {
          name = scenario.name;
          description = scenario.description;
          passed = all (λ r. r.passed) rs;
          steps = rs;
        },
        bugs,
        gw',
        w',
      )

  -- The loop over the scenarios, each with a session and a gateway of its own.
  unfoldable pub run_all :
      List Scenario → T → List ScenarioResult × List Bug × List (AuditEntry (Dict String)) × T
  run_all [] t = ([], [], [], t)
  run_all (scenario ∷ scenarios) t =
      let (r, bugs, gw, w) =
        run_scenario scenario build_cua_gateway (record { session = new_session; time = t }) in
      let (rs, bugs', trace, t') = run_all scenarios w.time in
      (r ∷ rs, bugs ++ bugs', gw.audit ++ trace, t')

  unfoldable pub run_qa : List Scenario → T → QaReport × T
  run_qa scenarios t =
      let (rs, bugs, trace, t') = run_all scenarios t in
      let passed = length (keep (λ r. r.passed) rs) in
      (
        record {
          scenarios = rs;
          bugs = bugs;
          passed = passed;
          failed = length rs - passed;
          action_trace = trace;
          summary = "";
          provider = "";
          cost_usd = none;
        },
        t',
      )
