-- ===== src/Gateway/Security.antt =====
-- workbench_gateway/security.py but for the rate limiter: the start-up guard of production, the API
-- key gate and the headers of every response. `Settings` has the fields of config.py that these
-- read.
use text.Mathlib.Text.{starts_with}
use ai_agents_enterprise.Prelude.{
  ℕ, zero, suc, String, ◌≡◌, ◌↔◌, Bool, true, false, Option, none, some, List, [], ◌∷◌, ◌++◌, any,
  ◌==◌, eq_iff, ◌&&◌, ◌||◌, not, if◌then◌else◌, or_else, Dict, get, put, get-put, arith, is_some,
  Bool-cases, inl, inr,
}

-- An `int` setting. `negsuc n` is -(n + 1).
pub data ℤ : Type 0 where
  pos : ℕ → ℤ
  negsuc : ℕ → ℤ

pub record Settings : Type 0 where
  pub env : String
  pub api_key : String
  pub rate_limit_per_min : ℤ
  pub approval_token : String
  pub cors_origins : List String

-- `x <= 0`
abbrev pub is_not_positive : ℤ → Bool
is_not_positive (pos zero) = true
is_not_positive (pos (suc n)) = false
is_not_positive (negsuc n) = true

-- The settings that the message of ProductionConfigError names.
pub data Missing : Type 0 where
  wb_api_key wb_rate_limit_per_min wb_approval_token wb_cors_origins : Missing

abbrev pub when : Bool → Missing → List Missing
when true m = m ∷ []
when false m = []

abbrev pub is_empty : List String → Bool
is_empty [] = true
is_empty (x ∷ xs) = false

-- `validate_production_security`: the settings that the error names; none, and there is no error.
unfoldable pub validate_production_security : Settings → List Missing
validate_production_security s =
    if not (s.env == "prod")
    then []
    else when (s.api_key == "") wb_api_key
      ++ when (is_not_positive s.rate_limit_per_min) wb_rate_limit_per_min
      ++ when (s.approval_token == "") wb_approval_token
      ++ when (is_empty s.cors_origins || any (λ o. o == "*") s.cors_origins) wb_cors_origins

-- What a middleware does with a request: it calls the next one, or answers with a status.
pub data Decision : Type 0 where
  forward : Decision
  answer : ℕ → Decision

abbrev pub is_protected : String → Bool
is_protected path = starts_with path "/v1"

-- `ApiKeyMiddleware.dispatch`; `hmac.compare_digest` is equality.
unfoldable pub check_api_key : Settings → (path : String) → (header : Option String) → Decision
check_api_key s path header =
    if not (s.api_key == "") && is_protected path && not (or_else header "" == s.api_key)
    then answer 401
    else forward

abbrev pub security_headers : Dict String
security_headers =
    ("X-Content-Type-Options", "nosniff")
    ∷ ("X-Frame-Options", "DENY")
    ∷ ("Referrer-Policy", "no-referrer")
    ∷ ("Strict-Transport-Security", "max-age=63072000; includeSubDomains")
    ∷ []

-- `headers.setdefault(name, value)`
unfoldable pub set_default : Dict String → String → String → Dict String
set_default headers name value = elim (get headers name) [
  | none ↦ put headers name value
  | some old ↦ headers
]

-- `SecurityHeadersMiddleware.dispatch` on the headers of the response.
unfoldable pub stamp : Dict String → Dict String → Dict String
stamp headers [] = headers
stamp headers ((name, value) ∷ rest) = stamp (set_default headers name value) rest

-- Outside production the guard lets every configuration pass. In production it passes exactly those
-- with an API key, a positive rate limit, an approval token and origins that are listed and not
-- "*".
pub validate_production_security-passes :
    (s : Settings)
    → (validate_production_security s ≡ []) ↔ (
        ((s.env == "prod")
          && ((s.api_key == "")
              || is_not_positive s.rate_limit_per_min
              || (s.approval_token == "")
              || is_empty s.cors_origins
              || any (λ o. o == "*") s.cors_origins))
        ≡ false)
unfolding validate_production_security
validate_production_security-passes s = (λ h. ground arith, λ h. ground arith)

get-set_default :
    (headers : Dict String) (name value j : String)
    → get (set_default headers name value) j
      ≡ (if name == j then some (or_else (get headers name) value) else get headers j)
unfolding set_default
get-set_default headers name value j = elim (Bool-cases (is_some (get headers name))) [
  | inl e ↦ ground (arith, eq_iff name j)
  | inr e ↦ ground (arith, get-put headers name value j)
]

-- Stamping sets each header that the response does not have, and keeps each one that it has.
pub get-stamp :
    (headers defaults : Dict String) (j : String)
    → get (stamp headers defaults) j
      ≡ elim (get headers j) [ some v ↦ some v | none ↦ get defaults j ]
unfolding stamp get
get-stamp headers [] j = ground arith
get-stamp headers ((name, value) ∷ rest) j = ground (
  arith,
  get-stamp (set_default headers name value) rest j,
  get-set_default headers name value j,
  eq_iff name j,
)
