-- ===== src/Compliance/Review.antt =====
-- apps/compliance_reviewer, workbench_app_compliance/reviewer.py: the findings of the policy
-- engine, and a narrative of a model around them. `step` is the turn of the router, `shown` and
-- `str` are Python's str.
pub mod Findings
use ai_agents_enterprise.Prelude.{
  ℕ, String, ◌≡◌, refl, Bool, true, false, Option, none, some, Option-cases, inl, inr, List, [],
  ◌∷◌, map, concat, join, ◌==◌, if◌then◌else◌,
}
use ai_agents_enterprise.Runtime.Types.{StepOutput, Turned, turned, unavailable}
use ai_agents_enterprise.Autonomous.Answers.{
  Json, Fields, extract_json, object_in, field_of, text_of, iterate,
}
use ai_agents_enterprise.Compliance.{
  PiiType, email, phone, ssn, credit_card, ipv4, Severity, low, medium, high, RiskBand, low_risk,
  medium_risk, high_risk, critical, PiiFinding, PolicyRule, PolicyViolation, Match, scan_pii,
  check_policies, score_risk, default_rules,
}

pub record RiskReport : Type 0 where
  pub risk_score : ℕ
  pub risk_band : RiskBand
  pub pii_findings : List PiiFinding
  pub policy_violations : List PolicyViolation
  pub summary : String
  pub recommendations : List String
  pub provider : String
  pub model : String
  pub cost_usd : Option ℕ

abbrev pub pii_text : PiiType → String
pii_text email = "email"
pii_text phone = "phone"
pii_text ssn = "ssn"
pii_text credit_card = "credit_card"
pii_text ipv4 = "ipv4"

abbrev pub severity_text : Severity → String
severity_text low = "low"
severity_text medium = "medium"
severity_text high = "high"

abbrev pub band_text : RiskBand → String
band_text low_risk = "low"
band_text medium_risk = "medium"
band_text high_risk = "high"
band_text critical = "critical"

abbrev pub or_none : String → String
or_none t = if t == "" then "none" else t

-- The world, the matches of the patterns in a document, and Python's functions.
pub record Reviewer (A W : Type 0) : Type 0 where
  pub step : String → W → Turned A × W
  pub finditer : String → PiiType → List Match
  pub lower : String → String
  pub contains : String → String → Bool
  pub loads : String → Option Json
  pub str : Json → String
  pub strip : String → String
  pub shown : ℕ → String

module _ {A W : Type 0} (who : Reviewer A W) where
  open who use {step, finditer, lower, contains, loads, str, strip, shown}

  -- `_findings_brief`
  unfoldable pub findings_brief : List PiiFinding → List PolicyViolation → String
  findings_brief pii violations =
      let pii_part =
        join ", " (map (λ f. concat (shown f.count ∷ "× " ∷ pii_text f.type ∷ [])) pii) in
      let vio_part = join "; " (
        map (λ v. concat ("[" ∷ severity_text v.severity ∷ "] " ∷ v.description ∷ []))
          violations) in
      concat ("PII detected: " ∷ or_none pii_part ∷ "\nPolicy violations: " ∷ or_none vio_part ∷ [])

  -- What the policy engine says of a document, without a narrative.
  abbrev pub findings_of : (document : String) → List PolicyRule → RiskReport
  findings_of document rules =
      let pii = (scan_pii (finditer document)).0 in
      let violations = check_policies lower contains document rules in
      let (score, band) = score_risk pii violations in
      record {
        risk_score = score;
        risk_band = band;
        pii_findings = pii;
        policy_violations = violations;
        summary = "";
        recommendations = [];
        provider = "";
        model = "";
        cost_usd = none;
      }

  abbrev pub review_prompt : RiskReport → String
  review_prompt r = concat (
      findings_brief r.pii_findings r.policy_violations
      ∷ "\n\nRisk score: "
      ∷ shown r.risk_score
      ∷ "/100 ("
      ∷ band_text r.risk_band
      ∷ ")."
      ∷ [])

  -- The recommendations of an answer; `none` is the TypeError of a value that is not iterable.
  abbrev pub recommendations_in : Fields → Option (List String)
  recommendations_in fields = elim (field_of "recommendations" fields) [
    | none ↦ some []
    | some j ↦ elim (iterate j) [ none ↦ none | some js ↦ some (map str js) ]
  ]

  abbrev pub narrate_fields : RiskReport → Option Fields → Option RiskReport
  narrate_fields r none = some r
  narrate_fields r (some fields) = elim (recommendations_in fields) [
    | none ↦ none
    | some rs ↦
        some (record r { summary = text_of loads str strip "summary" fields; recommendations = rs })
  ]

  abbrev pub narrated : RiskReport → Turned A → Option RiskReport
  narrated r unavailable = some r
  narrated r (turned out) =
      narrate_fields
        (record r { provider = out.provider; model = out.model; cost_usd = out.cost_usd })
        (object_in (extract_json loads str strip out.text))

  -- `none` is an exception.
  unfoldable pub review_document :
      (document : String) → (rules : Option (List PolicyRule)) → W → Option RiskReport × W
  review_document document rules w =
      let found = findings_of document (elim rules [ none ↦ default_rules | some rs ↦ rs ]) in
      let (out, w') = step (review_prompt found) w in (narrated found out, w')
