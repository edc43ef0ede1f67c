-- ===== src/Compliance/Tests.antt =====
-- A text with a social security number inside of a longer number, and the theorems at it.
use ai_agents_enterprise.Prelude.{◌≤◌, ◌≡◌, refl, List, [], ◌∷◌, length}
use ai_agents_enterprise.Compliance.{
  PiiType, phone, ssn, high, PiiFinding, PolicyViolation, Match, scan_matches, scan_patterns,
  scan_pii, score_risk,
}
use ai_agents_enterprise.Compliance.Spans.{Separate, total, scan_pii-Separate}
use ai_agents_enterprise.Compliance.Risk.{floor, score_risk-rises}

abbrev found : PiiType → List Match
found ssn = record { first = 4; last = 15; digits = [] } ∷ []
found phone =
    record { first = 4; last = 14; digits = [] }
    ∷ record { first = 20; last = 30; digits = [] }
    ∷ []
found _ = []

scan-found :
    (scan_pii found).0 ≡ record { type = ssn; count = 1 } ∷ record { type = phone; count = 1 } ∷ []
unfolding scan_pii scan_patterns scan_matches
scan-found = refl

scan_pii-Separate_example :
    Separate (scan_pii found).1 × (length (scan_pii found).1 ≡ total (scan_pii found).0)
scan_pii-Separate_example = scan_pii-Separate found

abbrev numbers : List PiiFinding
numbers = record { type = ssn; count = 4 } ∷ []

abbrev secrets : List PolicyViolation
secrets =
    record { rule_id = "no-plaintext-secrets"; description = "Credentials"; severity = high } ∷ []

score_risk-rises_example :
    ((score_risk numbers secrets).0 ≤ 100)
    × ((score_risk numbers []).0 ≤ (score_risk numbers secrets).0)
    × (floor (score_risk numbers []).1 ≤ floor (score_risk numbers secrets).1)
score_risk-rises_example = score_risk-rises numbers [] [] secrets
