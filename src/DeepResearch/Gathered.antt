-- ===== src/DeepResearch/Gathered.antt =====
-- What the research gathers through the tool gateway.
pub mod Reports
use ai_agents_enterprise.Prelude.{
  ℕ, suc, ◌+◌, ◌*◌, ◌≤◌, String, ◌≡◌, refl, ◌∙◌, subst, ◌⊎◌, inl, inr, true, false, not, ◌||◌, ◌==◌,
  eq_refl, some_injective, none_ne_some, Option, none, some, or_else, List, [], ◌∷◌, ◌++◌, length,
  length-append, length-take, any, any-append, All, All-append, Dict, get, Bool-cases, Option-cases,
  arith,
}
use ai_agents_enterprise.Runtime.Types.{StepOutput, Turned, turned, unavailable}
use ai_agents_enterprise.ToolGateway.{ToolResult, AuditEntry, Clock, call}
use ai_agents_enterprise.ToolGateway.Audit.{call-Audited}
use ai_agents_enterprise.DeepResearch.{
  Source, ResearchReport, Output, listed, dict, Found, nothing_found, is_seen, hits_of, fetched_url,
  page_of, usable, add_source, keep_page, Gateway, fetch_hits, research, Researcher,
  parse_subquestions, report_prompt, write_report, research_and_report, run_research,
  max_subquestions, or_fallback, listed_questions,
}
use ai_agents_enterprise.Autonomous.Answers.{extract_json, object_in}
use ai_agents_enterprise.DeepResearch.Sources.{
  NumberedFrom, Distinct, NumberedFrom-snoc, Distinct-snoc, is_fetch_of, WasFetched,
  WasFetched-append,
}

abbrev Log : Type 0
Log = List (AuditEntry (Dict String))

-- The sources are numbered from 1, no URL stands twice, and each was fetched with permission.
pub record Sound (log : Log) (sources : List Source) : Type 0 where
  pub numbered : NumberedFrom 1 sources
  pub distinct : Distinct sources
  pub fetched : All (WasFetched log) sources

Sound-append :
    (log more : Log) (sources : List Source) → Sound log sources → Sound (log ++ more) sources
Sound-append log more sources h = record {
  numbered = h.numbered;
  distinct = h.distinct;
  fetched = WasFetched-append log more sources h.fetched;
}

-- An outcome that is sound and has at most so many sources, if no exception was raised.
abbrev Fits : ℕ → Option Found → Log → Type 0
Fits most none log = Unit
Fits most (some f) log = Sound log f.sources × (length f.sources ≤ most)

Fits-le : (m n : ℕ) (out : Option Found) (log : Log) → m ≤ n → Fits m out log → Fits n out log
Fits-le m n none log le h = tt
Fits-le m n (some f) log le h = (h.0, omega (arith, le, h.1))

usable-facts :
    (r : ToolResult Output) (o : Output)
    → usable r ≡ some o
    → (r.allowed ≡ true) × (not (elim r.error [ none ↦ false | some why ↦ not (why == "") ]) ≡ true)
usable-facts r o e = ground arith

add_source-Sound :
    (log : Log) (url : String) (fields : Dict String) (f : Found)
    → Sound log f.sources
    → is_seen url f ≡ false
    → any (is_fetch_of url) log ≡ true
    → Sound log (add_source url fields f).sources
add_source-Sound log url fields f h fresh fetched = record {
  numbered = NumberedFrom-snoc 1 f.sources _ h.numbered (omega arith);
  distinct = Distinct-snoc f.sources _ h.distinct fresh;
  fetched = All-append (WasFetched log) f.sources _ h.fetched (fetched, tt);
}

module _ {W : Type 0} (clock : Clock W) where
  abbrev called :
      String → Dict String → List String → Gateway clock → W → ToolResult Output × Gateway clock × W
  called tool args allowlist gw w = call clock tool args (some allowlist) gw w

  call-Sound :
      (tool : String) (args : Dict String) (allowlist : List String) (gw : Gateway clock) (w : W)
      (sources : List Source)
      → Sound gw.audit sources
      → Sound (called tool args allowlist gw w).1.audit sources
  call-Sound tool args allowlist gw w sources h =
      let a = call-Audited clock tool args (some allowlist) gw w in
      rw (a.gateway) (Sound-append gw.audit (a.entry ∷ []) sources h)

  is_fetch_of-logged :
      (url : String) (allowlist : List String) (gw : Gateway clock) (w : W) (o : Output)
      → usable (called "fetch" (("url", url) ∷ []) allowlist gw w).0 ≡ some o
      → any (is_fetch_of url) (called "fetch" (("url", url) ∷ []) allowlist gw w).1.audit ≡ true
  unfolding get
  is_fetch_of-logged url allowlist gw w o e =
      let a = call-Audited clock "fetch" (("url", url) ∷ []) (some allowlist) gw w in
      let (allowed, errorless) =
        usable-facts (called "fetch" (("url", url) ∷ []) allowlist gw w).0 o e in
      let logged : is_fetch_of url a.entry ≡ true = rw (
        a.tool_named.0,
        a.args_kept,
        a.allowed_same,
        a.error_same,
        allowed,
        errorless,
        eq_refl url,
      ) in
      rw (a.gateway) (any-append (is_fetch_of url) gw.audit (a.entry ∷ []) ∙ ground (arith, logged))

  keep_page-Fits :
      (url : String) (allowlist : List String) (f : Found) (gw : Gateway clock) (w : W)
      → Sound gw.audit f.sources
      → is_seen url f ≡ false
      → Fits
          (suc (length f.sources))
          (keep_page url (called "fetch" (("url", url) ∷ []) allowlist gw w).0 f)
          (called "fetch" (("url", url) ∷ []) allowlist gw w).1.audit
  keep_page-Fits url allowlist f gw w h fresh =
      let args = ("url", url) ∷ [] in
      let h1 = call-Sound "fetch" args allowlist gw w f.sources h in
      elim (Option-cases (usable (called "fetch" args allowlist gw w).0)) [
        | inl n ↦ rw (keep_page, n) (h1, omega arith)
        | inr (o, n) ↦ elim (Option-cases (page_of o)) [
          | inl m ↦ rw (keep_page, n, m) tt
          | inr (fields, m) ↦
              rw (keep_page, n, m)
                (
                  add_source-Sound _ url fields f h1 fresh
                      (is_fetch_of-logged url allowlist gw w o n),
                  omega (
                    arith,
                    length-append f.sources (
                        record {
                          n = length f.sources + 1;
                          url = url;
                          title = or_else (get fields "title") "";
                        }
                        ∷ []),
                  ),
                )
        ]
      ]

  -- The loop over the hits keeps at most one source for each.
  fetch_hits-Fits :
      (allowlist : List String) (hits : List (Dict String)) (f : Found) (gw : Gateway clock) (w : W)
      → Sound gw.audit f.sources
      → Fits
          (length f.sources + length hits)
          (fetch_hits clock allowlist hits f gw w).0
          (fetch_hits clock allowlist hits f gw w).1.audit
  unfolding fetch_hits
  fetch_hits-Fits allowlist [] f gw w h = (h, omega arith)
  fetch_hits-Fits allowlist (hit ∷ hits) f gw w h =
      let url = fetched_url hit in
      let out = called "fetch" (("url", url) ∷ []) allowlist gw w in
      elim (Bool-cases (url == "" || is_seen url f)) [
        | inl skip ↦
            rw (fetch_hits, skip)
              (Fits-le _ _ _ _ (omega arith) (fetch_hits-Fits allowlist hits f gw w h))
        | inr go ↦
            let one = keep_page-Fits url allowlist f gw w h (ground (arith, go)) in
            elim (Option-cases (keep_page url out.0 f)) [
              | inl n ↦ rw (fetch_hits, go, n) tt
              | inr (f1, n) ↦
                  let (sound, more) = rw (n) at one in
                  rw (fetch_hits, go, n)
                    (Fits-le _ _ _ _ (omega (arith, more))
                      (fetch_hits-Fits allowlist hits f1 out.1 out.2 sound))
            ]
      ]

  hits_of_le :
      (o : Option Output) (hits : List (Dict String)) → hits_of o ≡ some hits → length hits ≤ 2
  hits_of_le none hits e = subst (λ hs. length hs ≤ 2) (some_injective e) (omega arith)
  hits_of_le (some (listed found)) hits e =
      subst (λ hs. length hs ≤ 2) (some_injective e) (omega (arith, length-take 2 found))
  hits_of_le (some (dict [])) hits e = subst (λ hs. length hs ≤ 2) (some_injective e) (omega arith)
  hits_of_le (some (dict (x ∷ xs))) hits e = absurd (none_ne_some e)

  -- The loop over the sub-questions keeps at most two sources for each.
  research-Fits :
      (allowlist sqs : List String) (f : Found) (gw : Gateway clock) (w : W)
      → Sound gw.audit f.sources
      → Fits
          (length f.sources + 2 * length sqs)
          (research clock allowlist sqs f gw w).0
          (research clock allowlist sqs f gw w).1.audit
  unfolding research
  research-Fits allowlist [] f gw w h = (h, omega arith)
  research-Fits allowlist (sq ∷ sqs) f gw w h =
      let search = called "web_search" (("query", sq) ∷ []) allowlist gw w in
      let h1 = call-Sound "web_search" (("query", sq) ∷ []) allowlist gw w f.sources h in
      elim (Option-cases (hits_of search.0.output)) [
        | inl n ↦ rw (research, n) tt
        | inr (hits, n) ↦
            let out = fetch_hits clock allowlist hits f search.1 search.2 in
            let one = fetch_hits-Fits allowlist hits f search.1 search.2 h1 in
            elim (Option-cases out.0) [
              | inl m ↦ rw (research, n, m) tt
              | inr (f1, m) ↦
                  let (sound, more) = rw (m) at one in
                  rw (research, n, m)
                    (Fits-le _ _ _ _ (omega (arith, more, hits_of_le _ hits n))
                      (research-Fits allowlist sqs f1 out.1 out.2 sound))
            ]
      ]
