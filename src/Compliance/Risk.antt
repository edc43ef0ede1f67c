-- ===== src/Compliance/Risk.antt =====
-- The risk score and its bands.
use ai_agents_enterprise.Prelude.{ℕ, ◌+◌, ◌≤◌, min, ◌≡◌, List, [], ◌∷◌, ◌++◌, arith}
use ai_agents_enterprise.Compliance.{
  PiiFinding, PolicyViolation, RiskBand, critical, high_risk, medium_risk, low_risk, pii_score,
  violation_score, band, score_risk,
}

pii_score-append : (fs gs : List PiiFinding) → pii_score (fs ++ gs) ≡ pii_score fs + pii_score gs
pii_score-append [] gs = omega arith
pii_score-append (f ∷ fs) gs = omega (arith, pii_score-append fs gs)

violation_score-append :
    (vs ws : List PolicyViolation)
    → violation_score (vs ++ ws) ≡ violation_score vs + violation_score ws
violation_score-append [] ws = omega arith
violation_score-append (v ∷ vs) ws = omega (arith, violation_score-append vs ws)

-- The least score of a band.
abbrev pub floor : RiskBand → ℕ
floor critical = 80
floor high_risk = 50
floor medium_risk = 20
floor low_risk = 0

floor-band : (m n : ℕ) → m ≤ n → floor (band m) ≤ floor (band n)
unfolding band
floor-band m n h = ground arith

-- The score is at most 100, and further findings and violations lower neither the score nor the
-- band.
pub score_risk-rises :
    (fs gs : List PiiFinding) (vs ws : List PolicyViolation)
    → ((score_risk (fs ++ gs) (vs ++ ws)).0 ≤ 100)
      × ((score_risk fs vs).0 ≤ (score_risk (fs ++ gs) (vs ++ ws)).0)
      × (floor (score_risk fs vs).1 ≤ floor (score_risk (fs ++ gs) (vs ++ ws)).1)
unfolding score_risk
score_risk-rises fs gs vs ws =
    let le : min (pii_score fs + violation_score vs) 100
        ≤ min (pii_score (fs ++ gs) + violation_score (vs ++ ws)) 100 =
      omega (arith, pii_score-append fs gs, violation_score-append vs ws) in
    (omega arith, le, floor-band _ _ le)
