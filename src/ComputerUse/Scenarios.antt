-- ===== src/ComputerUse/Scenarios.antt =====
-- apps/computer_use_qa, workbench_app_cua/scenarios.py, and the endpoints of api.py that run them.
mod Tests
use ai_agents_enterprise.Prelude.{
  ℕ, String, Bool, true, false, Option, none, some, List, [], ◌∷◌, ◌++◌, map, length, concat, join,
  nat_eq, if◌then◌else◌,
}
use ai_agents_enterprise.ToolGateway.{Clock}
use ai_agents_enterprise.Runtime.Types.{StepOutput, Turned, turned, unavailable}
use ai_agents_enterprise.ComputerUse.Sandbox.{
  ActionKind, observing, clicking, typing, Action, Screen, new_session, observe,
}
use ai_agents_enterprise.ComputerUse.Runner.{Desk, Step, Scenario, Bug, QaReport, run_qa}

abbrev pub plain : Action → Step
plain a = record { action = a; expect_state = none; expect_text = none; expect_error = none }

abbrev pub typed : (target value : String) → Action
typed target value = record { kind = typing; target = target; value = value }

abbrev pub clicked : (target : String) → Action
clicked target = record { kind = clicking; target = target; value = "" }

abbrev pub observed : Action
observed = record { kind = observing; target = ""; value = "" }

-- `_login`
abbrev pub login_steps : (user pw : String) → List Step
login_steps user pw =
    plain (typed "username" user) ∷ plain (typed "password" pw) ∷ plain (clicked "submit") ∷ []

abbrev pub form_steps : (name email : String) → List Step
form_steps name email =
    plain (clicked "new_customer") ∷ plain (typed "name" name) ∷ plain (typed "email" email) ∷ []

abbrev pub login_valid : Scenario
login_valid = record {
  name = "login_valid";
  description = "Sign in with valid credentials reaches the dashboard.";
  steps =
      login_steps "admin" "secret"
      ++ record (plain observed) { expect_state = some "dashboard" } ∷ [];
}

abbrev pub login_invalid_recovers : Scenario
login_invalid_recovers = record {
  name = "login_invalid_recovers";
  description = "Wrong password is rejected with an error (error recovery).";
  steps =
      login_steps "admin" "wrong"
      ++ record (plain observed) { expect_state = some "login"; expect_error = some true } ∷ [];
}

abbrev pub create_customer_valid : Scenario
create_customer_valid = record {
  name = "create_customer_valid";
  description = "A customer with a valid email saves successfully.";
  steps =
      login_steps "admin" "secret"
      ++ form_steps "Acme Corp" "ops@acme.com"
      ++ record (plain (clicked "save")) { expect_state = some "success" } ∷ [];
}

abbrev pub email_validation : Scenario
email_validation = record {
  name = "email_validation";
  description = "An invalid email (no @) should be rejected at save.";
  steps =
      login_steps "admin" "secret"
      ++ form_steps "Acme Corp" "notanemail"
      ++ record (plain (clicked "save")) { expect_error = some true } ∷ [];
}

abbrev pub dashboard_copy : Scenario
dashboard_copy = record {
  name = "dashboard_copy";
  description = "The dashboard greeting should be spelled 'Welcome'.";
  steps =
      login_steps "admin" "secret" ++ record (plain observed) { expect_text = some "Welcome" } ∷ [];
}

abbrev pub scenarios : List Scenario
scenarios =
    login_valid ∷ login_invalid_recovers ∷ create_customer_valid ∷ email_validation ∷ dashboard_copy
    ∷ []

abbrev pub scenario_names : List String
scenario_names = map (λ s. s.name) scenarios

-- The endpoint `screen`.
abbrev pub first_screen : Screen
first_screen = observe new_session

-- `_narrate`; `shown` is str of a number, and `step` the router's turn on the findings.
abbrev pub finding_line : Bug → String
finding_line b = concat ("- [" ∷ b.scenario ∷ "] expected " ∷ b.expected ∷ "; got " ∷ b.actual ∷ [])

module _ {A W : Type 0} (shown : ℕ → String) (step : String → W → Turned A × W) where
  abbrev pub findings : QaReport → String
  findings report = concat (
      shown report.passed
      ∷ " passed, "
      ∷ shown report.failed
      ∷ " failed.\nBugs:\n"
      ∷ join "\n" (map finding_line report.bugs)
      ∷ [])

  abbrev pub narrated : QaReport → Turned A → QaReport
  narrated report (turned out) = record report {
    summary = out.text;
    provider = out.provider;
    cost_usd = out.cost_usd;
  }
  narrated report unavailable = report

  unfoldable pub narrate : QaReport → W → QaReport × W
  narrate report w =
      let (out, w') = step (findings report) w in
      elim report.bugs [ [] ↦ (report, w) | b ∷ bs ↦ (narrated report out, w') ]

-- The row of the trace store for a run.
pub record RunTrace : Type 0 where
  pub name : String
  pub status : String
  pub cost_usd : Option ℕ
  pub num_steps : ℕ
  pub error : Option String

unfoldable pub trace_of : (shown : ℕ → String) → QaReport → RunTrace
trace_of shown report =
    let clean = nat_eq report.failed 0 in
    record {
      name = "computer_use_qa";
      status = if clean then "completed" else "failed";
      cost_usd = report.cost_usd;
      num_steps = length report.action_trace;
      error =
          if clean then none else some (concat (shown report.failed ∷ " scenario(s) failed" ∷ []));
    }

module _ {A T : Type 0} (strip lower : String → String) (shown : ℕ → String)
    (clock : Clock (Desk T)) (elapse : T → T) (step : String → T → Turned A × T)
    (safe_record : RunTrace → T → T) where
  -- The endpoint `run`.
  unfoldable pub run : T → QaReport × T
  run t =
      let (found, t1) = run_qa strip lower clock elapse scenarios t in
      let (report, t2) = narrate shown step found t1 in
      (report, safe_record (trace_of shown report) t2)
