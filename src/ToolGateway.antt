-- ===== src/ToolGateway.antt =====
-- platform/toolgateway, workbench_toolgateway/gateway.py and types.py: the registry of tools, the
-- permission allowlist and the audit log. `A` is the type of argument dicts, `V` of JSON values,
-- `W` the outside world, which handlers, the clocks and the sink act on.
pub mod Audit
mod Tests
use ai_agents_enterprise.Prelude.{
  ℕ, ◌-◌, String, Bool, true, false, Option, none, some, List, [], ◌∷◌, ◌++◌, map, any, ◌==◌, not,
  is_some, Dict, get, put, if◌then◌else◌, ◌&&◌,
}

pub record ToolSpec (A : Type 0) : Type 0 where
  pub name : String
  pub description : String
  pub input_schema : A

pub record ToolResult (V : Type 0) : Type 0 where
  pub tool : String
  pub allowed : Bool
  pub latency_ms : ℕ
  pub output : Option V
  pub error : Option String

pub record AuditEntry (A : Type 0) : Type 0 where
  pub tool : String
  pub args : A
  pub allowed : Bool
  pub error : Option String
  pub latency_ms : ℕ
  pub at : String

-- What an awaited handler does.
pub data Handled (V : Type 0) : Type 0 where
  returned : V → Handled V
  raised : String → Handled V

pub record Registered (A V W : Type 0) : Type 0 where
  pub spec : ToolSpec A
  pub handler : A → W → Handled V × W

pub record Clock (W : Type 0) : Type 0 where
  pub utc_now : W → String
  pub monotonic_ms : W → ℕ

-- The sink's result says whether it returned; what it raises is swallowed.
pub record ToolGateway (A V W : Type 0) : Type 0 where
  pub tools : Dict (Registered A V W)
  pub audit : List (AuditEntry A)
  pub audit_sink : Option (AuditEntry A → W → Bool × W)

-- `allowlist is not None and tool not in allowlist`
unfoldable pub is_refused : String → Option (List String) → Bool
is_refused tool none = false
is_refused tool (some allowlist) = not (any (λ t. t == tool) allowlist)

-- The world after the sink, if there is one, has had the entry.
unfoldable pub run_sink :
    {A W : Type 0} → Option (AuditEntry A → W → Bool × W) → AuditEntry A → W → W
run_sink none entry w = w
run_sink (some sink) entry w = (sink entry w).1

module _ {A V W : Type 0} where
  unfoldable pub register :
      ToolSpec A → (A → W → Handled V × W) → ToolGateway A V W → ToolGateway A V W
  register spec handler gw = record gw {
    tools = put gw.tools spec.name (record { spec = spec; handler = handler });
  }

  unfoldable pub list_tools : ToolGateway A V W → List (ToolSpec A)
  list_tools gw = map (λ (name, t). t.spec) gw.tools

  -- `_record`
  unfoldable pub record_call :
      Clock W
      → String
      → A
      → (allowed : Bool) → (error : Option String) → (ms : ℕ) → ToolGateway A V W
      → W
      → ToolGateway A V W × W
  record_call clock tool args allowed error ms gw w =
      let entry : AuditEntry A = record {
        tool = tool;
        args = args;
        allowed = allowed;
        error = error;
        latency_ms = ms;
        at = clock.utc_now w;
      } in
      (record gw { audit = gw.audit ++ entry ∷ [] }, run_sink gw.audit_sink entry w)

  unfoldable pub deny :
      Clock W → String → A → String → ToolGateway A V W → W → ToolResult V × ToolGateway A V W × W
  deny clock tool args why gw w =
      let (gw', w') = record_call clock tool args false (some why) 0 gw w in
      (
        record { tool = tool; allowed = false; latency_ms = 0; output = none; error = some why },
        gw',
        w',
      )

  -- The part of `call` behind the checks; `started` was read when the call began.
  unfoldable pub run_handler :
      Clock W
      → String
      → A
      → (started : ℕ) → (A → W → Handled V × W)
      → ToolGateway A V W
      → W
      → ToolResult V × ToolGateway A V W × W
  run_handler clock tool args started handler gw w =
      let (outcome, w1) = handler args w in
      let ms = clock.monotonic_ms w1 - started in
      elim outcome [
        | raised why ↦
            let (gw', w') = record_call clock tool args true (some why) ms gw w1 in
            (
              record {
                tool = tool;
                allowed = true;
                latency_ms = ms;
                output = none;
                error = some why;
              },
              gw',
              w',
            )
        | returned value ↦
            let (gw', w') = record_call clock tool args true none ms gw w1 in
            (
              record {
                tool = tool;
                allowed = true;
                latency_ms = ms;
                output = some value;
                error = none;
              },
              gw',
              w',
            )
      ]

  unfoldable pub call :
      Clock W
      → String
      → A
      → Option (List String)
      → ToolGateway A V W
      → W
      → ToolResult V × ToolGateway A V W × W
  call clock tool args allowlist gw w = elim (get gw.tools tool) [
    | none ↦ deny clock tool args "unknown tool" gw w
    | some t ↦
        if is_refused tool allowlist
        then deny clock tool args "tool not permitted" gw w
        else run_handler clock tool args (clock.monotonic_ms w) t.handler gw w
  ]
