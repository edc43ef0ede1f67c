-- ===== src/Compliance/Review/Findings.antt =====
-- The narrative of a model against the findings of the policy engine.
use ai_agents_enterprise.Prelude.{
  String, ◌≡◌, refl, Option, none, some, Option-cases, inl, inr, List,
}
use ai_agents_enterprise.Runtime.Types.{Turned, turned, unavailable}
use ai_agents_enterprise.Autonomous.Answers.{Fields, extract_json, object_in}
use ai_agents_enterprise.Compliance.{PolicyRule}
use ai_agents_enterprise.Compliance.Review.{
  RiskReport, Reviewer, findings_of, recommendations_in, narrate_fields, narrated, review_document,
}

-- The same score, band, findings and violations.
pub record SameFindings (found r : RiskReport) : Type 0 where
  pub risk_score : r.risk_score ≡ found.risk_score
  pub risk_band : r.risk_band ≡ found.risk_band
  pub pii_findings : r.pii_findings ≡ found.pii_findings
  pub policy_violations : r.policy_violations ≡ found.policy_violations

-- Of a report, if no exception was raised.
abbrev pub KeepsFindings : RiskReport → Option RiskReport → Type 0
KeepsFindings found none = Unit
KeepsFindings found (some r) = SameFindings found r

module _ {A W : Type 0} (who : Reviewer A W) where
  narrate_fields-KeepsFindings :
      (r : RiskReport) (fields : Option Fields) → KeepsFindings r (narrate_fields who r fields)
  narrate_fields-KeepsFindings r none = record {
    risk_score = refl;
    risk_band = refl;
    pii_findings = refl;
    policy_violations = refl;
  }
  narrate_fields-KeepsFindings r (some fields) =
      elim (Option-cases (recommendations_in who fields)) [
        | inl n ↦ rw (narrate_fields, n) tt
        | inr (rs, n) ↦
            rw (narrate_fields, n)
              (record {
                risk_score = refl;
                risk_band = refl;
                pii_findings = refl;
                policy_violations = refl;
              })
      ]

  narrated-KeepsFindings :
      (found : RiskReport) (out : Turned A) → KeepsFindings found (narrated who found out)
  narrated-KeepsFindings found unavailable = record {
    risk_score = refl;
    risk_band = refl;
    pii_findings = refl;
    policy_violations = refl;
  }
  narrated-KeepsFindings found (turned out) =
      elim (Option-cases (narrated who found (turned out))) [
        | inl n ↦ rw (n) tt
        | inr (r, n) ↦
            let kept =
              narrate_fields-KeepsFindings
                (record found {
                  provider = out.provider;
                  model = out.model;
                  cost_usd = out.cost_usd;
                })
                (object_in (extract_json who.loads who.str who.strip out.text)) in
            let same = rw (n) at kept in
            rw (n) (record {
              risk_score = same.risk_score;
              risk_band = same.risk_band;
              pii_findings = same.pii_findings;
              policy_violations = same.policy_violations;
            })
      ]

  -- Whatever the model answers, the score, the band, the findings and the violations of a review
  -- are those of the policy engine on the document.
  pub review_document-KeepsFindings :
      (document : String) (rules : List PolicyRule) (w : W)
      → KeepsFindings
          (findings_of who document rules)
          (review_document who document (some rules) w).0
  unfolding review_document
  review_document-KeepsFindings document rules w =
      narrated-KeepsFindings (findings_of who document rules) _
