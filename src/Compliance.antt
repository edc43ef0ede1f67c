-- ===== src/Compliance.antt =====
-- apps/compliance_reviewer, workbench_app_compliance/policy.py: detection of personal data, policy
-- rules and the risk score. The matches of a pattern, in the order of `finditer`, the digits of a
-- text, `str.lower` and `in` are arguments. The masked example of a finding is left out.
pub mod Spans
pub mod Risk
pub mod Review
mod Tests
use ai_agents_enterprise.Prelude.{
  ℕ, zero, suc, ◌+◌, ◌*◌, ◌-◌, ◌%◌, min, String, Bool, true, false, not, ◌&&◌, ◌||◌, Option, none,
  some, List, [], ◌∷◌, ◌++◌, length, any, all, ltb, leb, nat_eq, if◌then◌else◌,
}

pub data PiiType : Type 0 where
  email phone ssn credit_card ipv4 : PiiType

pub data Severity : Type 0 where
  low medium high : Severity

pub data RiskBand : Type 0 where
  low_risk medium_risk high_risk critical : RiskBand

pub record PiiFinding : Type 0 where
  pub type : PiiType
  pub count : ℕ

pub data RuleKind : Type 0 where
  forbidden_term required_clause : RuleKind

pub record PolicyRule : Type 0 where
  pub id : String
  pub description : String
  pub kind : RuleKind
  pub pattern : String
  pub severity : Severity

pub record PolicyViolation : Type 0 where
  pub rule_id : String
  pub description : String
  pub severity : Severity

-- The patterns in the order of their priority, and their weights.
abbrev pub pii_patterns : List PiiType
pii_patterns = ssn ∷ credit_card ∷ email ∷ phone ∷ ipv4 ∷ []

abbrev pub pii_weight : PiiType → ℕ
pii_weight ssn = 25
pii_weight credit_card = 25
pii_weight email = 8
pii_weight phone = 8
pii_weight ipv4 = 4

-- A match of a pattern: its span, and the digits of its text.
pub record Match : Type 0 where
  pub first : ℕ
  pub last : ℕ
  pub digits : List ℕ

abbrev pub luhn_digit : (parity index digit : ℕ) → ℕ
luhn_digit parity index digit =
    if nat_eq (index % 2) parity
    then if ltb 9 (digit * 2) then digit * 2 - 9 else digit * 2
    else digit

abbrev pub luhn_total : (parity index : ℕ) → List ℕ → ℕ
luhn_total parity index [] = 0
luhn_total parity index (d ∷ ds) = luhn_digit parity index d + luhn_total parity (suc index) ds

unfoldable pub luhn_ok : List ℕ → Bool
luhn_ok nums =
    leb 13 (length nums)
    && leb (length nums) 16
    && nat_eq (luhn_total (length nums % 2) 0 nums % 10) 0

-- `span[0] < e and s < span[1]`
abbrev pub overlaps : Match → Match → Bool
overlaps m n = ltb m.first n.last && ltb n.first m.last

abbrev pub is_plausible : PiiType → Match → Bool
is_plausible credit_card m = luhn_ok m.digits
is_plausible _ m = true

abbrev pub is_claimable : PiiType → Match → (seen : List Match) → Bool
is_claimable t m seen = not (any (overlaps m) seen) && is_plausible t m

-- The inner loop: how many matches are taken, and the spans that are claimed, the newest first.
unfoldable pub scan_matches : PiiType → List Match → (seen : List Match) → ℕ × List Match
scan_matches t [] seen = (0, seen)
scan_matches t (m ∷ ms) seen =
    let (n, seen') = scan_matches t ms (m ∷ seen) in
    let skipped = scan_matches t ms seen in
    if is_claimable t m seen then (suc n, seen') else skipped

abbrev pub finding_of : PiiType → ℕ → List PiiFinding
finding_of t zero = []
finding_of t (suc n) = record { type = t; count = suc n } ∷ []

unfoldable pub scan_patterns :
    (finditer : PiiType → List Match)
    → List PiiType
    → (seen : List Match) → List PiiFinding × List Match
scan_patterns finditer [] seen = ([], seen)
scan_patterns finditer (t ∷ ts) seen =
    let (n, seen') = scan_matches t (finditer t) seen in
    let (findings, seen'') = scan_patterns finditer ts seen' in (finding_of t n ++ findings, seen'')

-- The findings, with the spans that they stand for.
unfoldable pub scan_pii : (finditer : PiiType → List Match) → List PiiFinding × List Match
scan_pii finditer = scan_patterns finditer pii_patterns []

abbrev pub default_rules : List PolicyRule
default_rules =
    record {
      id = "no-plaintext-secrets";
      kind = forbidden_term;
      pattern = "plaintext password";
      description = "Credentials must not be stored or transmitted in plaintext.";
      severity = high;
    }
    ∷ record {
      id = "no-disable-encryption";
      kind = forbidden_term;
      pattern = "disable encryption";
      description = "Encryption must not be disabled.";
      severity = high;
    }
    ∷ record {
      id = "no-share-credentials";
      kind = forbidden_term;
      pattern = "shared credentials";
      description = "Shared credentials violate least-privilege policy.";
      severity = medium;
    }
    ∷ record {
      id = "require-data-retention";
      kind = required_clause;
      pattern = "data retention";
      description = "A data retention policy must be stated.";
      severity = medium;
    }
    ∷ record {
      id = "require-access-control";
      kind = required_clause;
      pattern = "access control";
      description = "Access control must be addressed.";
      severity = medium;
    }
    ∷ []

abbrev pub severity_weight : Severity → ℕ
severity_weight low = 6
severity_weight medium = 14
severity_weight high = 28

abbrev pub is_violated : RuleKind → (present : Bool) → Bool
is_violated forbidden_term present = present
is_violated required_clause present = not present

-- `contains text t` is `t in text`.
unfoldable pub check_policies :
    (lower : String → String) (contains : String → String → Bool) (text : String)
    → List PolicyRule
    → List PolicyViolation
check_policies lower contains text [] = []
check_policies lower contains text (r ∷ rules) =
    let rest = check_policies lower contains text rules in
    if is_violated r.kind (contains (lower text) (lower r.pattern))
    then record { rule_id = r.id; description = r.description; severity = r.severity } ∷ rest
    else rest

abbrev pub pii_score : List PiiFinding → ℕ
pii_score [] = 0
pii_score (f ∷ fs) = pii_weight f.type * min f.count 3 + pii_score fs

abbrev pub violation_score : List PolicyViolation → ℕ
violation_score [] = 0
violation_score (v ∷ vs) = severity_weight v.severity + violation_score vs

unfoldable pub band : ℕ → RiskBand
band score =
    if leb 80 score
    then critical
    else if leb 50 score
    then high_risk
    else if leb 20 score
    then medium_risk
    else low_risk

unfoldable pub score_risk : List PiiFinding → List PolicyViolation → ℕ × RiskBand
score_risk pii violations =
    let score = min (pii_score pii + violation_score violations) 100 in (score, band score)
