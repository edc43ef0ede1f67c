-- ===== src/Incident/Tests.antt =====
-- A trace with one denied call, and its cause.
use ai_agents_enterprise.Prelude.{String, ◌≡◌, refl, Bool, true, false, none, [], ◌∷◌}
use ai_agents_enterprise.Incident.{Payload, tool_denied, classify}

abbrev trail : Payload
trail = record { tool_calls = []; action_trace = false ∷ true ∷ []; hit_rate = none }

abbrev never : String → String → Bool
never text part = false

classify-trail : classify (λ t. t) never "agent" "failed" none trail ≡ tool_denied
unfolding classify
classify-trail = refl
