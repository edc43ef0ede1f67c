-- ===== src/DeepResearch/Tests.antt =====
-- A search that finds one page twice, and the report on it.
use ai_agents_enterprise.Prelude.{
  ℕ, suc, String, ◌==◌, ◌≡◌, refl, Option, none, some, List, [], ◌∷◌, map, Dict, get, put, concat,
  join, if◌then◌else◌,
}
use ai_agents_enterprise.Runtime.Types.{Turned, turned, no_usage}
use ai_agents_enterprise.ToolGateway.{
  ToolSpec, returned, Clock, register, call, is_refused, deny, run_handler, record_call, run_sink,
}
use ai_agents_enterprise.Autonomous.Answers.{
  null, boolean, number, text, array, object, none_left, item, no_fields, field, extract_json,
}
use ai_agents_enterprise.DeepResearch.{
  listed, dict, Gateway, fetch_hits, research, Researcher, ResearchReport, parse_subquestions,
  write_report, research_and_report, run_research,
}
use ai_agents_enterprise.DeepResearch.Gathered.Reports.{Grounded, run_research-Grounded}

abbrev clock : Clock ℕ
clock = record { utc_now = λ w. "now"; monotonic_ms = λ w. w }

abbrev tool : String → ToolSpec (Dict String)
tool name = record { name = name; description = name; input_schema = [] }

abbrev gateway : Gateway clock
unfolding register put
gateway =
    register (tool "web_search")
      (λ args w.
        (returned (listed ((("url", "a.org") ∷ []) ∷ (("url", "a.org") ∷ []) ∷ [])), suc w))
      (register (tool "fetch")
        (λ args w. (returned (dict (("title", "A") ∷ ("text", "body") ∷ [])), suc w))
        (record { tools = []; audit = []; audit_sink = none }))

abbrev replied : String → Turned ℕ
replied t = turned (record {
  text = t;
  tool_calls = [];
  provider = "mock";
  model = "mock";
  usage = no_usage;
  cost_usd = some 1;
  latency_ms = 0;
  attempts = [];
})

abbrev who : Researcher ℕ ℕ
who = record {
  clock = clock;
  plan_step = λ prompt w. (replied "{two}", w);
  report_step = λ prompt w. (replied "As [1] says.", w);
  loads = λ t.
      if t == "{two}"
      then some (
          object (
            field "sub_questions" (array (item (text "q1") (item (text "q2") none_left)))
              no_fields))
      else none;
  str = λ j. elim j [
    | text t ↦ t
    | null ↦ "None"
    | boolean b ↦ if b then "True" else "False"
    | number t z ↦ t
    | array js ↦ "[]"
    | object fs ↦ "{}"
  ];
  strip = λ t. t;
  shown = λ n. "1";
}

abbrev urls_of : Option ResearchReport → List String
urls_of none = []
urls_of (some r) = map (λ s. s.url) r.sources

-- The page is fetched and kept once.
urls_of-example : urls_of (run_research who none "why" gateway 0).0 ≡ "a.org" ∷ []
unfolding run_research research_and_report write_report parse_subquestions extract_json research
    fetch_hits call is_refused deny run_handler record_call run_sink get put register concat join
urls_of-example = refl

run_research-Grounded_example : Grounded (run_research who none "why" gateway 0).0
run_research-Grounded_example = run_research-Grounded who none "why" gateway 0
