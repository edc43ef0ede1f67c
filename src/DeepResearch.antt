-- ===== src/DeepResearch.antt =====
-- apps/deep_research, workbench_app_research/research.py: the plan, the research through the tool
-- gateway, and the cited report. A tool's output is a list of dicts or a dict, and what Python
-- raises on another shape or on a missing title is `none`. `step` is a turn of the router.
pub mod Sources
pub mod Gathered
mod Tests
use ai_agents_enterprise.Prelude.{
  ℕ, zero, suc, ◌+◌, String, Bool, true, false, not, ◌&&◌, ◌||◌, ◌==◌, Option, none, some, is_some,
  or_else, List, [], ◌∷◌, ◌++◌, map, length, any, keep, take, Dict, get, put, concat, join,
  if◌then◌else◌,
}
use ai_agents_enterprise.Runtime.Types.{StepOutput, Turned, turned, unavailable, add_cost}
use ai_agents_enterprise.ToolGateway.{ToolResult, AuditEntry, Clock, ToolGateway, call}
use ai_agents_enterprise.Autonomous.Answers.{
  Json, Fields, is_present, object_in, field_of, iterate, extract_json,
}

abbrev pub default_allowlist : List String
default_allowlist = "web_search" ∷ "fetch" ∷ "kb_search" ∷ []

abbrev pub max_subquestions : ℕ
max_subquestions = 3

pub record Source : Type 0 where
  pub n : ℕ
  pub url : String
  pub title : String

pub record ResearchReport : Type 0 where
  pub question : String
  pub sub_questions : List String
  pub sources : List Source
  pub report : String
  pub tool_calls : List (AuditEntry (Dict String))
  pub provider : String
  pub model : String
  pub cost_usd : Option ℕ

-- What a tool returns.
pub data Output : Type 0 where
  listed : List (Dict String) → Output
  dict : Dict String → Output

-- The sources and the bodies of their pages. The set `seen` has the URLs of the sources.
pub record Found : Type 0 where
  pub sources : List Source
  pub bodies : Dict String

abbrev pub nothing_found : Found
nothing_found = record { sources = []; bodies = [] }

abbrev pub is_seen : String → Found → Bool
is_seen url f = any (λ s. s.url == url) f.sources

-- `search.output or []`, cut to two; `none` is no list.
abbrev pub hits_of : Option Output → Option (List (Dict String))
hits_of none = some []
hits_of (some (listed hits)) = some (take 2 hits)
hits_of (some (dict [])) = some []
hits_of (some (dict (x ∷ xs))) = none

abbrev pub fetched_url : Dict String → String
fetched_url hit = or_else (get hit "url") ""

-- A page whose fetch was allowed, and neither failed nor came back empty; `none` is the missing
-- title.
abbrev pub page_of : Output → Option (Dict String)
page_of (listed hits) = none
page_of (dict fields) = if is_some (get fields "title") then some fields else none

abbrev pub is_empty : Output → Bool
is_empty (listed []) = true
is_empty (listed (x ∷ xs)) = false
is_empty (dict []) = true
is_empty (dict (x ∷ xs)) = false

abbrev pub usable : ToolResult Output → Option Output
usable r =
    if r.allowed && not (elim r.error [ none ↦ false | some e ↦ is_present e ])
    then elim r.output [ none ↦ none | some o ↦ if is_empty o then none else some o ]
    else none

abbrev pub add_source : String → Dict String → Found → Found
add_source url fields f = record {
  sources =
      f.sources
      ++ record { n = length f.sources + 1; url = url; title = or_else (get fields "title") "" }
        ∷ [];
  bodies = put f.bodies url (or_else (get fields "text") "");
}

-- The page of a URL that was fetched is kept.
abbrev pub keep_page : String → ToolResult Output → Found → Option Found
keep_page url r f = elim (usable r) [
  | none ↦ some f
  | some o ↦ elim (page_of o) [ none ↦ none | some fields ↦ some (add_source url fields f) ]
]

module _ {W : Type 0} (clock : Clock W) where
  abbrev pub Gateway : Type 0
  Gateway = ToolGateway (Dict String) Output W

  -- The loop over the hits of a search.
  unfoldable pub fetch_hits :
      List String → List (Dict String) → Found → Gateway → W → Option Found × Gateway × W
  fetch_hits allowlist [] f gw w = (some f, gw, w)
  fetch_hits allowlist (hit ∷ hits) f gw w =
      let url = fetched_url hit in
      let skipped = fetch_hits allowlist hits f gw w in
      let (fetched, gw1, w1) = call clock "fetch" (("url", url) ∷ []) (some allowlist) gw w in
      if url == "" || is_seen url f then skipped else elim (keep_page url fetched f) [
        | none ↦ (none, gw1, w1)
        | some f1 ↦ fetch_hits allowlist hits f1 gw1 w1
      ]

  -- The loop over the sub-questions.
  unfoldable pub research :
      List String → (sub_questions : List String) → Found → Gateway → W → Option Found × Gateway × W
  research allowlist [] f gw w = (some f, gw, w)
  research allowlist (sq ∷ sqs) f gw w =
      let (search, gw1, w1) = call clock "web_search" (("query", sq) ∷ []) (some allowlist) gw w in
      elim (hits_of search.output) [
        | none ↦ (none, gw1, w1)
        | some hits ↦
            let (found, gw2, w2) = fetch_hits allowlist hits f gw1 w1 in
            elim found [ none ↦ (none, gw2, w2) | some f1 ↦ research allowlist sqs f1 gw2 w2 ]
      ]

-- The parts of the world outside of the gateway: a turn of the router under a system prompt, and
-- Python's json.loads, str and str.strip.
pub record Researcher (A W : Type 0) : Type 0 where
  pub clock : Clock W
  pub plan_step : String → W → Turned A × W
  pub report_step : String → W → Turned A × W
  pub loads : String → Option Json
  pub str : Json → String
  pub strip : String → String
  pub shown : ℕ → String

module _ {A W : Type 0} (who : Researcher A W) where
  open who use {clock, plan_step, report_step, loads, str, strip, shown}

  -- The sub-questions that are no blank; `none` is the TypeError of a value that is not iterable.
  abbrev pub listed_questions : Option Fields → Option (List String)
  listed_questions none = some []
  listed_questions (some fields) = elim (field_of "sub_questions" fields) [
    | none ↦ some []
    | some j ↦ elim (iterate j) [
      | none ↦ none
      | some js ↦ some (keep (λ t. is_present (strip t)) (map str js))
    ]
  ]

  abbrev pub or_fallback : (fallback : String) → List String → List String
  or_fallback fallback [] = fallback ∷ []
  or_fallback fallback (q ∷ qs) = take max_subquestions (q ∷ qs)

  unfoldable pub parse_subquestions : (answer fallback : String) → Option (List String)
  parse_subquestions answer fallback =
      elim (listed_questions (object_in (extract_json loads str strip answer))) [
        | none ↦ none
        | some qs ↦ some (or_fallback fallback qs)
      ]

  abbrev pub numbered_source : Dict String → Source → String
  numbered_source bodies s =
      concat (
        "["
        ∷ shown s.n
        ∷ "] "
        ∷ s.title
        ∷ " ("
        ∷ s.url
        ∷ ")\n"
        ∷ or_else (get bodies s.url) ""
        ∷ [])

  abbrev pub report_prompt : (question : String) → Found → String
  report_prompt question f = concat (
      "Question: "
      ∷ question
      ∷ "\n\nSources:\n"
      ∷ join "\n\n" (map (numbered_source f.bodies) f.sources)
      ∷ [])

  abbrev pub reported :
      (question : String)
      → List String
      → Found
      → Gateway clock
      → (cost : Option ℕ) → StepOutput A
      → ResearchReport
  reported question sub_questions f gw cost out = record {
    question = question;
    sub_questions = sub_questions;
    sources = f.sources;
    report = out.text;
    tool_calls = gw.audit;
    provider = out.provider;
    model = out.model;
    cost_usd = add_cost cost out.cost_usd;
  }

  -- The report on what was found.
  unfoldable pub write_report :
      (question : String)
      → List String
      → (cost : Option ℕ) → Found
      → Gateway clock
      → W
      → Option ResearchReport × Gateway clock × W
  write_report question sub_questions cost f gw w =
      let (out, w') = report_step (report_prompt question f) w in
      elim out [
        | unavailable ↦ (none, gw, w')
        | turned r ↦ (some (reported question sub_questions f gw cost r), gw, w')
      ]

  unfoldable pub research_and_report :
      (allowlist : List String)
      → (question : String) → List String
      → (cost : Option ℕ) → Gateway clock
      → W
      → Option ResearchReport × Gateway clock × W
  research_and_report allowlist question sub_questions cost gw w =
      let (found, gw1, w1) = research clock allowlist sub_questions nothing_found gw w in
      elim found [
        | none ↦ (none, gw1, w1)
        | some f ↦ write_report question sub_questions cost f gw1 w1
      ]

  -- `none` is an exception.
  unfoldable pub run_research :
      (allowlist : Option (List String))
      → (question : String) → Gateway clock
      → W
      → Option ResearchReport × Gateway clock × W
  run_research allowlist question gw w =
      let (planned, w1) = plan_step question w in
      elim planned [
        | unavailable ↦ (none, gw, w1)
        | turned out ↦ elim (parse_subquestions out.text question) [
          | none ↦ (none, gw, w1)
          | some qs ↦
              research_and_report (or_else allowlist default_allowlist) question qs
                (add_cost (some 0) out.cost_usd) gw w1
        ]
      ]
