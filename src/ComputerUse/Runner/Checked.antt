-- ===== src/ComputerUse/Runner/Checked.antt =====
-- What a scenario's run through the tool gateway amounts to.
use ai_agents_enterprise.Prelude.{
  ◌-◌, String, ◌≡◌, refl, sym, ap, ◌∙◌, true, false, none, some, List, [], ◌∷◌, ◌++◌, map,
  append_assoc, append-nil, Dict, get, put, All,
}
use ai_agents_enterprise.ToolGateway.{
  ToolSpec, ToolResult, AuditEntry, Handled, Clock, register, is_refused, run_sink, record_call,
  run_handler, call,
}
use ai_agents_enterprise.ComputerUse.Sandbox.{
  Screen, ActionKind, observing, clicking, typing, kind_text, Action, UiSession, observe, perform,
  act,
}
use ai_agents_enterprise.ComputerUse.Runner.{
  allowlist, Desk, Step, StepResult, Bug, Scenario, arguments_of, Gateway, observe_spec, click_spec,
  type_spec, observe_handler, click_handler, type_handler, build_cua_gateway, step_result, bugs_of,
  run_steps,
}

abbrev pub bugs_in : Scenario → List StepResult → List Bug
bugs_in scenario [] = []
bugs_in scenario (r ∷ rs) = bugs_of scenario r ++ bugs_in scenario rs

abbrev pub Entries : Type 0
Entries = List (AuditEntry (Dict String))

-- The calls that the entries of an audit log are of, and those that the steps make.
abbrev pub asked : Entries → List (String × Dict String)
asked entries = map (λ e. (e.tool, e.args)) entries

abbrev pub calls_of : List Step → List (String × Dict String)
calls_of steps = map (λ step. (kind_text step.action.kind, arguments_of step.action)) steps

-- Every one of the entries was permitted, and its handler returned.
abbrev pub Granted : Entries → Type 0
Granted entries = All (λ e. (e.allowed ≡ true) × (e.error ≡ none)) entries

module _ (strip lower : String → String) where
  -- A step's action, done to the session directly. The gateway's `observe` only reads.
  abbrev pub direct : Action → UiSession → Screen × UiSession
  direct a s = elim a.kind [
    | observing ↦ (observe s, s)
    | clicking ↦ act strip a s
    | typing ↦ act strip a s
  ]

  -- The verdicts of the steps on the screens of the session itself, without a gateway.
  abbrev pub judge : List Step → UiSession → List StepResult
  judge [] s = []
  judge (step ∷ steps) s =
      let (screen, s') = direct step.action s in
      step_result lower step (some screen) ∷ judge steps s'

  module _ {T : Type 0} (clock : Clock (Desk T)) (elapse : T → T) where
    abbrev after_call : Action → Desk T → Desk T
    after_call a w = record { session = (direct a w.session).1; time = elapse w.time }

    abbrev entry_of : Action → Desk T → AuditEntry (Dict String)
    entry_of a w = record {
      tool = kind_text a.kind;
      args = arguments_of a;
      allowed = true;
      error = none;
      latency_ms = clock.monotonic_ms (after_call a w) - clock.monotonic_ms w;
      at = clock.utc_now (after_call a w);
    }

    -- A gateway whose tools are the three of the QA agent, without a sink.
    pub record IsCua (gw : Gateway strip lower clock elapse) : Type 0 where
      pub tools : gw.tools ≡ (build_cua_gateway strip lower clock elapse).tools
      pub audit_sink : gw.audit_sink ≡ none

    -- What the call of an action answers, with the gateway and the world behind it.
    abbrev called :
        Action
        → Gateway strip lower clock elapse
        → Desk T
        → ToolResult Screen × Gateway strip lower clock elapse × Desk T
    called a gw w = (
      record {
        tool = kind_text a.kind;
        allowed = true;
        latency_ms = clock.monotonic_ms (after_call a w) - clock.monotonic_ms w;
        output = some (direct a w.session).0;
        error = none;
      },
      record gw { audit = gw.audit ++ entry_of a w ∷ [] },
      after_call a w,
    )

    abbrev action_of : ActionKind → (target value : String) → Action
    action_of kind target value = record { kind = kind; target = target; value = value }

    registered_tool :
        (tool : String) (args : Dict String) (gw : Gateway strip lower clock elapse) (w : Desk T)
        (handler : Dict String → Desk T → Handled Screen × Desk T) (spec : ToolSpec (Dict String))
        → get gw.tools tool ≡ some (record { spec = spec; handler = handler })
        → is_refused tool (some allowlist) ≡ false
        → call clock tool args (some allowlist) gw w
          ≡ run_handler clock tool args (clock.monotonic_ms w) handler gw w
    unfolding call
    registered_tool tool args gw w handler spec found granted = rw (call, found) (rw (granted))

    call-kind :
        (kind : ActionKind) (target value : String) (gw : Gateway strip lower clock elapse)
        (w : Desk T)
        → IsCua gw
        → call clock
            (kind_text kind)
            (arguments_of (action_of kind target value))
            (some allowlist)
            gw
            w
          ≡ called (action_of kind target value) gw w
    unfolding call build_cua_gateway register get put is_refused run_handler record_call run_sink
        perform act
    call-kind observing target value gw w is =
        registered_tool "observe" _ gw w (observe_handler strip lower clock elapse) observe_spec
          (rw (is.tools)) refl
        ∙ rw (run_handler, is.audit_sink)
    call-kind clicking target value gw w is =
        registered_tool "click" _ gw w (click_handler strip lower clock elapse) click_spec
          (rw (is.tools)) refl
        ∙ rw (run_handler, is.audit_sink)
    call-kind typing target value gw w is =
        registered_tool "type" _ gw w (type_handler strip lower clock elapse) type_spec
          (rw (is.tools)) refl
        ∙ rw (run_handler, is.audit_sink)

    call-direct :
        (a : Action) (gw : Gateway strip lower clock elapse) (w : Desk T)
        → IsCua gw
        → call clock (kind_text a.kind) (arguments_of a) (some allowlist) gw w ≡ called a gw w
    call-direct a gw w is = call-kind a.kind a.target a.value gw w is

    -- The verdicts are those on the session itself, a bug is reported for each step that failed,
    -- and the log has one permitted entry more for each step.
    pub record Guarded (scenario : Scenario) (steps : List Step)
        (gw : Gateway strip lower clock elapse) (w : Desk T)
        (out : List StepResult × List Bug × Gateway strip lower clock elapse × Desk T)
        : Type 0 where
      pub results : out.0 ≡ judge steps w.session
      pub bugs : out.1 ≡ bugs_in scenario (judge steps w.session)
      pub entries : Entries
      pub gateway : out.2 ≡ record gw { audit = gw.audit ++ entries }
      pub logged : asked entries ≡ calls_of steps
      pub granted : Granted entries

    pub run_steps-Guarded :
        (scenario : Scenario) (steps : List Step) (gw : Gateway strip lower clock elapse)
        (w : Desk T)
        → IsCua gw
        → Guarded scenario steps gw w (run_steps strip lower clock elapse scenario steps gw w)
    unfolding run_steps
    run_steps-Guarded scenario [] gw w is = record {
      results = refl;
      bugs = refl;
      entries = [];
      gateway = ap (λ log. record gw { audit = log }) (sym (append-nil gw.audit));
      logged = refl;
      granted = tt;
    }
    run_steps-Guarded scenario (step ∷ steps) gw w is =
        let gw1 : Gateway strip lower clock elapse = record gw {
          audit = gw.audit ++ entry_of step.action w ∷ [];
        } in
        let r = step_result lower step (some (direct step.action w.session).0) in
        let rest =
          run_steps-Guarded scenario steps gw1 (after_call step.action w)
            (record { tools = is.tools; audit_sink = is.audit_sink }) in
        rw (run_steps, call-direct step.action gw w is)
          (record {
            results = ap (λ rs. r ∷ rs) rest.results;
            bugs = ap (λ bs. bugs_of scenario r ++ bs) rest.bugs;
            entries = entry_of step.action w ∷ rest.entries;
            gateway =
                rest.gateway
                ∙ ap (λ log. record gw { audit = log })
                    (append_assoc gw.audit (entry_of step.action w ∷ []) rest.entries);
            logged =
                ap (λ calls. (kind_text step.action.kind, arguments_of step.action) ∷ calls)
                  rest.logged;
            granted = ((refl, refl), rest.granted);
          })
