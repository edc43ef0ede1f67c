-- ===== src/Incident.antt =====
-- apps/incident_response, workbench_app_incident/classify.py: the root cause of a trace, without
-- the evidence texts. `lower` is str.lower and `contains text t` is `t in text`. Of the payload
-- stand what the code reads: whether each entry of the audit trail is a denied call, and the hit
-- rate of the aggregates.
pub mod Causes
mod Tests
use ai_agents_enterprise.Prelude.{
  ℕ, String, Bool, true, false, ◌&&◌, ◌||◌, Option, none, some, List, [], ◌∷◌, any, ◌==◌, ltb,
  if◌then◌else◌,
}

pub data RootCause : Type 0 where
  policy_rejection loop_no_progress provider_unavailable sql_error tool_denied scenario_failures
        low_eval_quality unknown :
      RootCause

-- The hit rate is a percentage where it is a number.
pub record Payload : Type 0 where
  pub tool_calls : List Bool
  pub action_trace : List Bool
  pub hit_rate : Option ℕ

-- `payload.get("tool_calls") or payload.get("action_trace") or []`
abbrev pub audit_of : Payload → List Bool
audit_of p = elim p.tool_calls [ [] ↦ p.action_trace | c ∷ cs ↦ c ∷ cs ]

abbrev pub is_low : Option ℕ → Bool
is_low none = false
is_low (some rate) = ltb rate 50

abbrev pub error_text : Option String → String
error_text none = ""
error_text (some e) = e

module _ (lower : String → String) (contains : String → String → Bool) where
  unfoldable pub classify : (kind status : String) (error : Option String) → Payload → RootCause
  classify kind status error payload =
      let err = lower (error_text error) in
      if status == "rejected"
      then policy_rejection
      else if (status == "max_steps_reached") || contains err "max_steps"
      then loop_no_progress
      else if contains err "no provider" || contains err "no model provider"
      then provider_unavailable
      else if contains err "execution failed" || contains err "sql"
      then sql_error
      else if (kind == "agent") && contains err "scenario"
      then scenario_failures
      else if any (λ denied. denied) (audit_of payload)
      then tool_denied
      else if (kind == "eval") && is_low payload.hit_rate
      then low_eval_quality
      else unknown
