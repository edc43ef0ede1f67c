-- ===== src/Gateway/Tests.antt =====
-- The gateway's middlewares on small inputs, and their theorems there.
use ai_agents_enterprise.Prelude.{
  ℕ, String, ◌≡◌, ◌↔◌, refl, false, List, [], ◌∷◌, ◌&&◌, ◌||◌, ◌==◌, any, get, put, remove,
}
use ai_agents_enterprise.Gateway.Security.{
  pos, Settings, is_not_positive, is_empty, validate_production_security, wb_api_key,
  wb_cors_origins, forward, answer, validate_production_security-passes,
}
use ai_agents_enterprise.Gateway.RateLimit.{
  new_limiter, dispatch, admit, reap_idle, expire, stale_ips, delete_all, is_stale,
}
use ai_agents_enterprise.Gateway.RateLimit.Sliding.{serve}

abbrev production : Settings
production = record {
  env = "prod";
  api_key = "";
  rate_limit_per_min = pos 60;
  approval_token = "t";
  cors_origins = "*" ∷ [];
}

validate_production : validate_production_security production ≡ wb_api_key ∷ wb_cors_origins ∷ []
unfolding validate_production_security
validate_production = refl

validate_production_security-passes_example : (validate_production_security production ≡ []) ↔ (
    ((production.env == "prod")
      && ((production.api_key == "")
          || is_not_positive production.rate_limit_per_min
          || (production.approval_token == "")
          || is_empty production.cors_origins
          || any (λ o. o == "*") production.cors_origins))
    ≡ false)
validate_production_security-passes_example = validate_production_security-passes production

abbrev keyed : Settings
keyed = record production { api_key = "secret" }

-- Two hits a minute: the third is refused, and the one after the window has moved is not; the
-- health check is not counted.
abbrev requests : List (ℕ × String × String)
requests =
    (1, "/v1/runs", "a")
    ∷ (1, "/healthz", "a")
    ∷ (1, "/v1/runs", "a")
    ∷ (3, "/v1/runs", "a")
    ∷ (4, "/v1/runs", "b")
    ∷ (59999994, "/v1/runs", "a")
    ∷ []

serve-requests :
    serve (pos 2) 0 requests new_limiter
    ≡ forward ∷ forward ∷ forward ∷ answer 429 ∷ forward ∷ forward ∷ []
unfolding serve dispatch admit reap_idle expire stale_ips delete_all is_stale get put remove
serve-requests = refl
