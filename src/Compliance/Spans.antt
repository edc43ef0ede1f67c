-- ===== src/Compliance/Spans.antt =====
-- The spans that the detection of personal data claims.
use ai_agents_enterprise.Prelude.{
  ℕ, zero, suc, ◌+◌, ◌≡◌, refl, true, false, List, [], ◌∷◌, ◌++◌, length, any, inl, inr, arith,
  Bool-cases,
}
use ai_agents_enterprise.Compliance.{
  PiiType, PiiFinding, Match, overlaps, is_claimable, scan_matches, finding_of, scan_patterns,
  scan_pii, pii_patterns,
}

-- No two of the spans overlap.
abbrev pub Separate : List Match → Type 0
Separate [] = Unit
Separate (m ∷ ms) = (any (overlaps m) ms ≡ false) × Separate ms

abbrev pub total : List PiiFinding → ℕ
total [] = 0
total (f ∷ fs) = f.count + total fs

claimable-apart :
    (t : PiiType) (m : Match) (seen : List Match)
    → is_claimable t m seen ≡ true
    → any (overlaps m) seen ≡ false
claimable-apart t m seen h = ground arith

scan_matches-Separate :
    (t : PiiType) (ms seen : List Match)
    → Separate seen
    → Separate (scan_matches t ms seen).1
      × (length (scan_matches t ms seen).1 ≡ (scan_matches t ms seen).0 + length seen)
unfolding scan_matches
scan_matches-Separate t [] seen h = (h, omega arith)
scan_matches-Separate t (m ∷ ms) seen h = elim (Bool-cases (is_claimable t m seen)) [
  | inl e ↦
      let (apart, size) = scan_matches-Separate t ms (m ∷ seen) (claimable-apart t m seen e, h) in
      rw (scan_matches, e) (apart, omega (arith, size))
  | inr e ↦ rw (scan_matches, e) (scan_matches-Separate t ms seen h)
]

total-finding_of :
    (t : PiiType) (n : ℕ) (fs : List PiiFinding) → total (finding_of t n ++ fs) ≡ n + total fs
total-finding_of t zero fs = omega arith
total-finding_of t (suc n) fs = refl

scan_patterns-Separate :
    (finditer : PiiType → List Match) (ts : List PiiType) (seen : List Match)
    → Separate seen
    → Separate (scan_patterns finditer ts seen).1
      × (length (scan_patterns finditer ts seen).1
          ≡ total (scan_patterns finditer ts seen).0 + length seen)
unfolding scan_patterns
scan_patterns-Separate finditer [] seen h = (h, omega arith)
scan_patterns-Separate finditer (t ∷ ts) seen h =
    let (h', size) = scan_matches-Separate t (finditer t) seen h in
    let (apart, sizes) =
      scan_patterns-Separate finditer ts (scan_matches t (finditer t) seen).1 h' in
    (
      apart,
      rw
          (total-finding_of t (scan_matches t (finditer t) seen).0
            (scan_patterns finditer ts (scan_matches t (finditer t) seen).1).0)
          (omega (arith, size, sizes)),
    )

-- Whatever the patterns match, no two of the spans that the scan counts overlap, so that no
-- character is reported twice, and the counts of the findings add up to the number of these spans.
pub scan_pii-Separate :
    (finditer : PiiType → List Match)
    → Separate (scan_pii finditer).1 × (length (scan_pii finditer).1 ≡ total (scan_pii finditer).0)
unfolding scan_pii
scan_pii-Separate finditer =
    let (apart, size) = scan_patterns-Separate finditer pii_patterns [] tt in
    (apart, omega (arith, size))
