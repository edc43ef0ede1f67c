-- ===== src/ToolGateway/Tests.antt =====
-- A gateway with one tool that counts its runs in the world, and the theorems at it.
use ai_agents_enterprise.Prelude.{
  ℕ, ◌+◌, String, ◌≡◌, refl, Bool, true, false, none, some, [], ◌∷◌, get, put,
}
use ai_agents_enterprise.ToolGateway.{
  ToolSpec, AuditEntry, returned, Clock, ToolGateway, register, run_sink, call, is_refused, deny,
  run_handler, record_call, list_tools,
}
use ai_agents_enterprise.ToolGateway.Audit.{Audited, call-Audited, call_denied}

abbrev clock : Clock ℕ
clock = record { utc_now = λ w. "now"; monotonic_ms = λ w. w }

abbrev empty : ToolGateway ℕ ℕ ℕ
empty = record { tools = []; audit = []; audit_sink = none }

abbrev fetch : ToolSpec ℕ
fetch = record { name = "fetch"; description = "Fetch a source"; input_schema = 0 }

abbrev sink : AuditEntry ℕ → ℕ → Bool × ℕ
sink entry w = (false, w + 100)

pub gateway : ToolGateway ℕ ℕ ℕ
unfolding register put
gateway = register fetch (λ args w. (returned (args + 1), w + 3)) empty

program : Unit {0}
unfolding gateway call is_refused deny run_handler record_call run_sink get list_tools
program = tt

call-fetch :
    (call clock "fetch" 4 (some ("fetch" ∷ [])) gateway 10).0
    ≡ record { tool = "fetch"; allowed = true; latency_ms = 3; output = some 5; error = none }
unfolding program
call-fetch = refl

call-Audited_example : Audited "fetch" 4 gateway (call clock "fetch" 4 (some []) gateway 10)
call-Audited_example = call-Audited clock "fetch" 4 (some []) gateway 10

call_denied_example :
    (why : String) × ((call clock "fetch" 4 (some []) gateway 10).2
      ≡ run_sink gateway.audit_sink
          (record {
            tool = "fetch";
            args = 4;
            allowed = false;
            error = some why;
            latency_ms = 0;
            at = "now";
          })
          10)
call_denied_example =
    call_denied clock "fetch" 4 (some []) gateway 10 (unfold gateway get is_refused in refl)
