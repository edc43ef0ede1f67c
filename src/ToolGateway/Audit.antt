-- ===== src/ToolGateway/Audit.antt =====
-- The allowlist decides before anything runs, and the audit log has every call.
use ai_agents_enterprise.Prelude.{
  ℕ, String, ◌≡◌, ◌⊎◌, inl, inr, refl, Bool, true, false, Option, some, List, [], ◌∷◌, ◌++◌, not,
  is_some, get, ◌&&◌, arith, Bool-cases, Option-cases,
}
use ai_agents_enterprise.ToolGateway.{
  ToolResult, AuditEntry, Handled, returned, raised, Clock, ToolGateway, is_refused, run_sink,
  record_call, deny, run_handler, call,
}

module _ {V : Type 0} where
  Handled-cases : (h : Handled V) → ((v : V) × (h ≡ returned v)) ⊎ ((e : String) × (h ≡ raised e))
  Handled-cases (returned v) = inl (v, refl)
  Handled-cases (raised e) = inr (e, refl)

module _ {A V W : Type 0} where
  -- One entry is appended, and it says what the result says.
  pub record Audited (tool : String) (args : A) (gw : ToolGateway A V W)
      (result : ToolResult V × ToolGateway A V W × W) : Type 0 where
    pub entry : AuditEntry A
    pub gateway : result.1 ≡ record gw { audit = gw.audit ++ entry ∷ [] }
    pub tool_named : (entry.tool ≡ tool) × (result.0.tool ≡ tool)
    pub args_kept : entry.args ≡ args
    pub allowed_same : entry.allowed ≡ result.0.allowed
    pub error_same : entry.error ≡ result.0.error
    pub latency_same : entry.latency_ms ≡ result.0.latency_ms

  -- The tool is registered, and the caller's allowlist has it.
  abbrev pub permitted : ToolGateway A V W → String → Option (List String) → Bool
  permitted gw tool allowlist = is_some (get gw.tools tool) && not (is_refused tool allowlist)

  module _ (clock : Clock W) (tool : String) (args : A) where
    deny-Audited :
        (why : String) (gw : ToolGateway A V W) (w : W)
        → Audited tool args gw (deny clock tool args why gw w)
    unfolding deny record_call
    deny-Audited why gw w = record {
      entry = _;
      gateway = refl;
      tool_named = (refl, refl);
      args_kept = refl;
      allowed_same = refl;
      error_same = refl;
      latency_same = refl;
    }

    run_handler-Audited :
        (started : ℕ) (handler : A → W → Handled V × W) (gw : ToolGateway A V W) (w : W)
        → Audited tool args gw (run_handler clock tool args started handler gw w)
    unfolding run_handler record_call
    run_handler-Audited started handler gw w = elim (Handled-cases (handler args w).0) [
      | inl (v, e) ↦
          rw (e, run_handler)
            (record {
              entry = _;
              gateway = refl;
              tool_named = (refl, refl);
              args_kept = refl;
              allowed_same = refl;
              error_same = refl;
              latency_same = refl;
            })
      | inr (why, e) ↦
          rw (e, run_handler)
            (record {
              entry = _;
              gateway = refl;
              tool_named = (refl, refl);
              args_kept = refl;
              allowed_same = refl;
              error_same = refl;
              latency_same = refl;
            })
    ]

    -- Every call, permitted or not, also one whose handler raises, appends exactly one entry to the
    -- audit log, with the call's tool and arguments and the verdict, error and latency of the
    -- result that the caller gets; the gateway does not change otherwise.
    pub call-Audited :
        (allowlist : Option (List String)) (gw : ToolGateway A V W) (w : W)
        → Audited tool args gw (call clock tool args allowlist gw w)
    unfolding call
    call-Audited allowlist gw w = elim (Option-cases (get gw.tools tool)) [
      | inl e ↦ rw (e, call) (deny-Audited "unknown tool" gw w)
      | inr (t, e) ↦ elim (Bool-cases (is_refused tool allowlist)) [
        | inl refused ↦ rw (e, call) (rw refused (deny-Audited "tool not permitted" gw w))
        | inr granted ↦
            rw (e, call) (rw granted (run_handler-Audited (clock.monotonic_ms w) t.handler gw w))
      ]
    ]

    run_handler-allowed :
        (started : ℕ) (handler : A → W → Handled V × W) (gw : ToolGateway A V W) (w : W)
        → (run_handler clock tool args started handler gw w).0.allowed ≡ true
    unfolding run_handler
    run_handler-allowed started handler gw w = elim (Handled-cases (handler args w).0) [
      | inl (v, e) ↦ rw (e, run_handler)
      | inr (why, e) ↦ rw (e, run_handler)
    ]

    -- The result is marked allowed exactly if the tool is registered and either there is no
    -- allowlist or the allowlist has the tool.
    pub call-permitted :
        (allowlist : Option (List String)) (gw : ToolGateway A V W) (w : W)
        → (call clock tool args allowlist gw w).0.allowed ≡ permitted gw tool allowlist
    unfolding call deny
    call-permitted allowlist gw w = elim (Option-cases (get gw.tools tool)) [
      | inl e ↦ rw (e, call)
      | inr (t, e) ↦ elim (Bool-cases (is_refused tool allowlist)) [
        | inl refused ↦ rw (e, call) (rw refused)
        | inr granted ↦
            rw (e, call) (rw granted (run_handler-allowed (clock.monotonic_ms w) t.handler gw w))
      ]
    ]

    -- A call that is not permitted runs no handler: the world is the one from before, but for what
    -- the audit sink does with the entry of the denial.
    pub call_denied :
        (allowlist : Option (List String)) (gw : ToolGateway A V W) (w : W)
        → permitted gw tool allowlist ≡ false
        → (why : String) × ((call clock tool args allowlist gw w).2
            ≡ run_sink gw.audit_sink
                (record {
                  tool = tool;
                  args = args;
                  allowed = false;
                  error = some why;
                  latency_ms = 0;
                  at = clock.utc_now w;
                })
                w)
    unfolding call deny record_call
    call_denied allowlist gw w h = elim (Option-cases (get gw.tools tool)) [
      | inl e ↦ ("unknown tool", rw (e, call))
      | inr (t, e) ↦
          let refused : is_refused tool allowlist ≡ true = ground arith in
          ("tool not permitted", rw (e, call) (rw refused))
    ]

  -- Whatever the sink does, raising included, the caller's result and the log are the same.
  run_handler-sink :
      (clock : Clock W) (tool : String) (args : A) (started : ℕ) (handler : A → W → Handled V × W)
      (gw : ToolGateway A V W) (sink : Option (AuditEntry A → W → Bool × W)) (w : W)
      → ((run_handler clock tool args started handler (record gw { audit_sink = sink }) w).0
          ≡ (run_handler clock tool args started handler gw w).0)
        × ((run_handler clock tool args started handler (record gw { audit_sink = sink }) w).1.audit
            ≡ (run_handler clock tool args started handler gw w).1.audit)
  unfolding run_handler record_call
  run_handler-sink clock tool args started handler gw sink w =
      elim (Handled-cases (handler args w).0) [
        | inl (v, e) ↦ rw (e, run_handler) (refl, refl)
        | inr (why, e) ↦ rw (e, run_handler) (refl, refl)
      ]

  -- The audit sink never breaks a call: whichever sink is attached, and whether it returns or
  -- raises, the caller gets the same result and the log in memory has the same entries.
  pub call-audit_sink :
      (clock : Clock W) (tool : String) (args : A) (allowlist : Option (List String))
      (gw : ToolGateway A V W) (sink : Option (AuditEntry A → W → Bool × W)) (w : W)
      → ((call clock tool args allowlist (record gw { audit_sink = sink }) w).0
          ≡ (call clock tool args allowlist gw w).0)
        × ((call clock tool args allowlist (record gw { audit_sink = sink }) w).1.audit
            ≡ (call clock tool args allowlist gw w).1.audit)
  unfolding call deny record_call
  call-audit_sink clock tool args allowlist gw sink w = elim (Option-cases (get gw.tools tool)) [
    | inl e ↦ rw (e, call) (refl, refl)
    | inr (t, e) ↦ elim (Bool-cases (is_refused tool allowlist)) [
      | inl refused ↦ rw (e, call) (rw refused (refl, refl))
      | inr granted ↦
          rw (e, call) (rw granted (run_handler-sink clock tool args _ t.handler gw sink w))
    ]
  ]
