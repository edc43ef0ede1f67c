-- ===== src/Incident/Causes.antt =====
-- What a cause that `classify` names says of the trace.
use ai_agents_enterprise.Prelude.{
  String, ◌≡◌, Bool, true, false, ◌&&◌, ◌||◌, Option, any, ◌==◌, arith,
}
use ai_agents_enterprise.Incident.{
  RootCause, policy_rejection, loop_no_progress, provider_unavailable, sql_error, tool_denied,
  scenario_failures, low_eval_quality, unknown, Payload, audit_of, is_low, error_text, classify,
}

module _ (lower : String → String) (contains : String → String → Bool) where
  -- The evidence that a trace must show for a cause; `unknown` is the absence of any.
  abbrev pub HasEvidence : (kind status err : String) → Payload → RootCause → Type 0
  HasEvidence kind status err p policy_rejection = (status == "rejected") ≡ true
  HasEvidence kind status err p loop_no_progress =
      ((status == "max_steps_reached") || contains err "max_steps") ≡ true
  HasEvidence kind status err p provider_unavailable =
      (contains err "no provider" || contains err "no model provider") ≡ true
  HasEvidence kind status err p sql_error =
      (contains err "execution failed" || contains err "sql") ≡ true
  HasEvidence kind status err p scenario_failures =
      ((kind == "agent") && contains err "scenario") ≡ true
  HasEvidence kind status err p tool_denied = any (λ denied. denied) (audit_of p) ≡ true
  HasEvidence kind status err p low_eval_quality = ((kind == "eval") && is_low p.hit_rate) ≡ true
  HasEvidence kind status err p unknown =
      ((status == "rejected") ≡ false)
      × (contains err "max_steps" ≡ false)
      × (contains err "no provider" ≡ false)
      × (contains err "no model provider" ≡ false)
      × (contains err "sql" ≡ false)
      × (any (λ denied. denied) (audit_of p) ≡ false)

  -- The cause that is named is evident in the trace: its status, its lowered error text, its kind
  -- with that text, a denied call of its audit trail, or a hit rate below one half. `unknown` is
  -- named only if the run was not rejected, no call was denied, and the error text speaks of no
  -- step limit, no missing provider and no SQL.
  pub classify-HasEvidence :
      (kind status : String) (error : Option String) (p : Payload)
      → HasEvidence kind status
          (lower (error_text error))
          p
          (classify lower contains kind status error p)
  unfolding classify
  classify-HasEvidence kind status error p = ground arith
