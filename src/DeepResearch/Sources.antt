-- ===== src/DeepResearch/Sources.antt =====
-- The sources that the research keeps.
use ai_agents_enterprise.Prelude.{
  ℕ, ◌+◌, String, ◌≡◌, refl, ◌∙◌, Bool, true, false, not, ◌&&◌, ◌==◌, eq_iff, none, some, or_else,
  List, [], ◌∷◌, ◌++◌, length, any, any-append, All, All-imp, Dict, get, arith,
}
use ai_agents_enterprise.ToolGateway.{AuditEntry}
use ai_agents_enterprise.DeepResearch.{Source}

-- Numbered in order, from `k` on.
abbrev pub NumberedFrom : ℕ → List Source → Type 0
NumberedFrom k [] = Unit
NumberedFrom k (s ∷ ss) = (s.n ≡ k) × NumberedFrom (k + 1) ss

-- No URL stands twice.
abbrev pub Distinct : List Source → Type 0
Distinct [] = Unit
Distinct (s ∷ ss) = (any (λ t. t.url == s.url) ss ≡ false) × Distinct ss

pub NumberedFrom-snoc :
    (k : ℕ) (ss : List Source) (s : Source)
    → NumberedFrom k ss
    → s.n ≡ k + length ss
    → NumberedFrom k (ss ++ s ∷ [])
NumberedFrom-snoc k [] s h e = (omega (arith, e), tt)
NumberedFrom-snoc k (t ∷ ts) s h e = (h.0, NumberedFrom-snoc (k + 1) ts s h.1 (omega (arith, e)))

pub Distinct-snoc :
    (ss : List Source) (s : Source)
    → Distinct ss
    → any (λ t. t.url == s.url) ss ≡ false
    → Distinct (ss ++ s ∷ [])
Distinct-snoc [] s h fresh = (refl, tt)
Distinct-snoc (t ∷ ts) s h fresh = (
  any-append (λ u. u.url == t.url) ts (s ∷ [])
      ∙ ground (arith, h.0, fresh, eq_iff t.url s.url, eq_iff s.url t.url),
  Distinct-snoc ts s h.1 (ground (arith, fresh)),
)

-- A permitted fetch of the URL, without an error.
abbrev pub is_fetch_of : String → AuditEntry (Dict String) → Bool
is_fetch_of url e =
    (e.tool == "fetch")
    && (or_else (get e.args "url") "" == url)
    && e.allowed
    && not (elim e.error [ none ↦ false | some why ↦ not (why == "") ])

-- The audit log has such a fetch for the source.
abbrev pub WasFetched : List (AuditEntry (Dict String)) → Source → Type 0
WasFetched log s = any (is_fetch_of s.url) log ≡ true

pub WasFetched-append :
    (log more : List (AuditEntry (Dict String))) (ss : List Source)
    → All (WasFetched log) ss
    → All (WasFetched (log ++ more)) ss
WasFetched-append log more ss h =
    All-imp (WasFetched log) (WasFetched (log ++ more))
      (λ s e. any-append (is_fetch_of s.url) log more ∙ ground (arith, e)) ss h
