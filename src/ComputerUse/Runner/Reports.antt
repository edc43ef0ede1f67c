-- ===== src/ComputerUse/Runner/Reports.antt =====
-- The report of a QA run against the session that it drives.
use ai_agents_enterprise.Prelude.{
  ◌+◌, ◌-◌, ◌≤◌, String, ◌≡◌, ◌↔◌, refl, ap, ◌∙◌, true, List, [], ◌∷◌, ◌++◌, map, all, keep, Dict,
  All-append, length, length-map, arith,
}
use ai_agents_enterprise.ToolGateway.{AuditEntry, Clock, register}
use ai_agents_enterprise.ComputerUse.Sandbox.{new_session}
use ai_agents_enterprise.ComputerUse.Runner.{
  Desk, StepResult, Bug, Scenario, ScenarioResult, QaReport, build_cua_gateway, run_scenario,
  run_all, run_qa,
}
use ai_agents_enterprise.ComputerUse.Runner.Checked.{
  judge, bugs_in, IsCua, asked, calls_of, Granted, run_steps-Guarded,
}

module _ (strip lower : String → String) where
  -- The verdict on a scenario, from a new session and without a gateway.
  abbrev pub verdict : Scenario → ScenarioResult
  verdict scenario =
      let rs = judge strip lower scenario.steps new_session in
      record {
        name = scenario.name;
        description = scenario.description;
        passed = all (λ r. r.passed) rs;
        steps = rs;
      }

  abbrev pub all_bugs : List Scenario → List Bug
  all_bugs [] = []
  all_bugs (scenario ∷ scenarios) =
      bugs_in scenario (judge strip lower scenario.steps new_session) ++ all_bugs scenarios

  abbrev pub all_calls : List Scenario → List (String × Dict String)
  all_calls [] = []
  all_calls (scenario ∷ scenarios) = calls_of scenario.steps ++ all_calls scenarios

  bugs_in-nil :
      (scenario : Scenario) (rs : List StepResult)
      → (bugs_in scenario rs ≡ []) ↔ (all (λ r. r.passed) rs ≡ true)
  bugs_in-nil scenario [] = ground arith
  bugs_in-nil scenario (r ∷ rs) = ground (arith, bugs_in-nil scenario rs)

  passed_le : (rs : List ScenarioResult) → length (keep (λ r. r.passed) rs) ≤ length rs
  passed_le [] = omega arith
  passed_le (r ∷ rs) = ground (arith, passed_le rs)

  append_nil_iff : (xs ys : List Bug) → (xs ++ ys ≡ []) ↔ ((xs ≡ []) × (ys ≡ []))
  append_nil_iff [] ys = ground arith
  append_nil_iff (x ∷ xs) ys = ground arith

  none_failed_iff :
      (scenarios : List Scenario)
      → (length (map verdict scenarios) - length (keep (λ r. r.passed) (map verdict scenarios)) ≡ 0)
        ↔ (all_bugs scenarios ≡ [])
  none_failed_iff [] = ground arith
  none_failed_iff (scenario ∷ scenarios) = ground (
    arith,
    none_failed_iff scenarios,
    passed_le (map verdict scenarios),
    append_nil_iff (bugs_in scenario (judge strip lower scenario.steps new_session))
        (all_bugs scenarios),
    bugs_in-nil scenario (judge strip lower scenario.steps new_session),
  )

  module _ {T : Type 0} (clock : Clock (Desk T)) (elapse : T → T) where
    -- The loop over the scenarios.
    record AllRun (scenarios : List Scenario)
        (out : List ScenarioResult × List Bug × List (AuditEntry (Dict String)) × T) : Type 0 where
      results : out.0 ≡ map verdict scenarios
      bugs : out.1 ≡ all_bugs scenarios
      logged : asked out.2 ≡ all_calls scenarios
      granted : Granted out.2

    fresh-IsCua : IsCua strip lower clock elapse (build_cua_gateway strip lower clock elapse)
    unfolding build_cua_gateway register
    fresh-IsCua = record { tools = refl; audit_sink = refl }

    asked-append :
        (xs ys : List (AuditEntry (Dict String))) → asked (xs ++ ys) ≡ asked xs ++ asked ys
    asked-append [] ys = refl
    asked-append (x ∷ xs) ys = ap (λ calls. (x.tool, x.args) ∷ calls) (asked-append xs ys)

    fresh_log : (build_cua_gateway strip lower clock elapse).audit ≡ []
    unfolding build_cua_gateway register
    fresh_log = refl

    run_all-AllRun :
        (scenarios : List Scenario) (t : T)
        → AllRun scenarios (run_all strip lower clock elapse scenarios t)
    unfolding run_all run_scenario
    run_all-AllRun [] t = record { results = refl; bugs = refl; logged = refl; granted = tt }
    run_all-AllRun (scenario ∷ scenarios) t =
        let gw = build_cua_gateway strip lower clock elapse in
        let w : Desk T = record { session = new_session; time = t } in
        let one =
          run_steps-Guarded strip lower clock elapse scenario scenario.steps gw w fresh-IsCua in
        let out = run_scenario strip lower clock elapse scenario gw w in
        let log : out.2.audit ≡ one.entries =
          ap (λ g. g.audit) one.gateway ∙ ap (λ l. l ++ one.entries) fresh_log in
        let rest = run_all-AllRun scenarios out.3.time in
        record {
          results = rw (one.results, rest.results);
          bugs = rw (one.bugs, rest.bugs);
          logged = rw (log) (asked-append one.entries _ ∙ rw (one.logged, rest.logged));
          granted = rw (log) (All-append _ one.entries _ one.granted rest.granted);
        }

    -- The results and the bugs are those of the steps done to a new session of each scenario
    -- directly, the trace has one entry for each step, in order, with its tool and arguments,
    -- permitted and without an error, and the counts agree with both.
    pub record Reported (scenarios : List Scenario) (report : QaReport) : Type 0 where
      pub results : report.scenarios ≡ map verdict scenarios
      pub bugs : report.bugs ≡ all_bugs scenarios
      pub logged : asked report.action_trace ≡ all_calls scenarios
      pub granted : Granted report.action_trace
      pub counted : report.passed + report.failed ≡ length scenarios
      pub clean : (report.failed ≡ 0) ↔ (report.bugs ≡ [])

    -- A QA run through the tool gateway reports what the scenarios show when each is driven by hand
    -- on a new session of the CRM, in order: the same verdicts and the same bugs, whatever the
    -- clocks say. Its trace has exactly one entry for each step, with the tool and the arguments of
    -- the step, and every one of them was permitted. The scenarios that passed and those that
    -- failed are all of them, and none failed exactly if no bug is reported.
    pub run_qa-Reported :
        (scenarios : List Scenario) (t : T)
        → Reported scenarios (run_qa strip lower clock elapse scenarios t).0
    unfolding run_qa
    run_qa-Reported scenarios t =
        let run = run_all-AllRun scenarios t in
        record {
          results = run.results;
          bugs = run.bugs;
          logged = run.logged;
          granted = run.granted;
          counted =
              rw (run.results)
                (omega (arith, passed_le (map verdict scenarios), length-map verdict scenarios));
          clean = rw (run.results, run.bugs) (none_failed_iff scenarios);
        }
