-- ===== src/ComputerUse/Scenarios/Tests.antt =====
-- The built-in scenarios on the CRM, with a clock that ticks once for each handler.
use ai_agents_enterprise.Prelude.{
  ℕ, suc, String, ◌≡◌, refl, true, List, [], ◌∷◌, ◌++◌, map, get, put, concat, join,
}
use ai_agents_enterprise.ToolGateway.{
  Clock, register, call, is_refused, run_handler, record_call, run_sink,
}
use ai_agents_enterprise.ComputerUse.Sandbox.{
  Action, new_session, observe, perform, click, act, act_all,
}
use ai_agents_enterprise.ComputerUse.Sandbox.Histories.{
  is_away, is_saved, Since, SignsIn, Saves, act_all-saved,
}
use ai_agents_enterprise.ComputerUse.Runner.{
  Desk, QaReport, build_cua_gateway, describe, screen_has_text, step_result, run_steps,
  run_scenario, run_all, run_qa,
}
use ai_agents_enterprise.ComputerUse.Runner.Reports.{Reported, run_qa-Reported}
use ai_agents_enterprise.ComputerUse.Scenarios.{scenarios, typed, clicked}

abbrev clock : Clock (Desk ℕ)
clock = record { utc_now = λ w. "2025-01-01T00:00:00Z"; monotonic_ms = λ w. w.time }

abbrev same : String → String
same t = t

abbrev report : QaReport
report = (run_qa same same clock suc scenarios 0).0

-- Three scenarios pass and two fail, one for each of the planted bugs.
report-scenarios :
    (report.passed ≡ 3)
    × (report.failed ≡ 2)
    × (map (λ b. b.scenario) report.bugs ≡ "email_validation" ∷ "dashboard_copy" ∷ [])
unfolding run_qa run_all run_scenario run_steps step_result screen_has_text describe
    build_cua_gateway register get put call is_refused run_handler record_call run_sink act perform
    click observe concat join
report-scenarios = (refl, refl, refl)

abbrev sign_in : List Action
sign_in = typed "username" "admin" ∷ typed "password" "secret" ∷ clicked "submit" ∷ []

-- A customer with an email without an `@`, which the form takes.
abbrev save_customer : List Action
save_customer =
    sign_in
    ++ clicked "new_customer"
      ∷ typed "name" "Acme Corp"
      ∷ typed "email" "notanemail"
      ∷ clicked "save"
      ∷ []

abbrev saved_after : is_saved same (act_all same save_customer new_session) ≡ true
unfolding act_all perform click get put
saved_after = refl

act_all-saved_example :
    (save : Since same (is_saved same) (Saves same) save_customer new_session) × Since same
      (is_away same)
      (SignsIn same)
      save.before
      new_session
act_all-saved_example = act_all-saved same save_customer saved_after

run_qa-Reported_example : Reported same same clock suc scenarios report
run_qa-Reported_example = run_qa-Reported same same clock suc scenarios 0
