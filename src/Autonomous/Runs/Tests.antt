-- ===== src/Autonomous/Runs/Tests.antt =====
-- An agent whose models answer at once, its background run on a table and a queue in memory, and
-- the theorems.
use ai_agents_enterprise.Prelude.{
  ℕ, suc, String, ◌==◌, eq_refl, ◌≡◌, refl, true, Option, none, some, List, [], ◌∷◌, concat, join,
}
use ai_agents_enterprise.RunStore.Database.{Database, AgentRun, clashes}
use ai_agents_enterprise.RunStore.Operations.{
  to_record, session_get, get_run, get_run_by_idempotency_key, claim_run, claimable, upsert_run,
}
use ai_agents_enterprise.RunStore.Creation.{new_row}
use ai_agents_enterprise.RunStore.Memory.{table_of, answers_selects, answers_updates}
use ai_agents_enterprise.Jobs.Redis.{Redis}
use ai_agents_enterprise.Jobs.Memory
use ai_agents_enterprise.Jobs.Memory.{redis_of}
use ai_agents_enterprise.Jobs.Queue.{enqueue}
use ai_agents_enterprise.Runtime.Types.{StepOutput, turned, no_usage}
use ai_agents_enterprise.Runtime.Types.{add_usage, add_cost}
use ai_agents_enterprise.Runtime.Context.{
  maybe_compact, should_compact, estimate_tokens, choose_cut, leading_results, build,
}
use ai_agents_enterprise.Runtime.Agent.{
  invalid, run_agent, start, run_rounds, take_turn, after_turn, finish, extend, absorb, run_calls,
}
use ai_agents_enterprise.Autonomous.Answers.{
  object, field, boolean, no_fields, parse_plan, parse_reflection, extract_json, null,
}
use ai_agents_enterprise.Autonomous.Answers.Plans.{parse_plan_crashes}
use ai_agents_enterprise.Autonomous.Engine.{
  Autonomy, AutonomousResult, Outcome, done, run_autonomous, iterate_rounds, round, act_and_reflect,
  reflect, act, build_act_agent, memorize, advance, conclude,
}
use ai_agents_enterprise.Autonomous.Engine.Rounds.{IsRun, run_autonomous-IsRun}
use ai_agents_enterprise.Autonomous.Runs.{Payloads, kind, handle, submit, submit_new, write_end}
use ai_agents_enterprise.Autonomous.Runs.Executed.{
  IsTerminal, at_once, delivery, delivered, ending, outcome, traced, execute_run-once,
}
use ai_agents_enterprise.Autonomous.Runs.Submitted.{job_of, submit-once}

abbrev said : StepOutput ℕ
said = record {
  text = "{}";
  tool_calls = [];
  provider = "";
  model = "";
  usage = no_usage;
  cost_usd = some 2;
  latency_ms = 0;
  attempts = [];
}

-- Every answer reads as one that declares the goal met.
abbrev auto : Autonomy ℕ ℕ ℕ
auto = record {
  loads = λ t. some (object (field "goal_met" (boolean true) no_fields));
  str = λ j. "text";
  strip = λ t. t;
  shown = λ n. "1";
  dumps = λ n. "{}";
  think = λ system prompt w. (turned said, suc w);
  summarize = λ prompt w. (turned said, suc w);
  act_turn = λ parts transcript w. (turned said, suc w);
  note_of = λ a. invalid "no note";
  note_text = λ i. "";
  tools = [];
  instructions = "Act";
  context_policy = record {
    max_context_tokens = 16000;
    compact_trigger_percent = 80;
    keep_recent_items = 8;
    summary_max_tokens = 512;
  };
}

run_autonomous-IsRun_example : IsRun "ship" 3 (run_autonomous auto "ship" 3 0).0
run_autonomous-IsRun_example = run_autonomous-IsRun auto "ship" 3 0

abbrev P : Type 0
P = String × Option AutonomousResult

abbrev payloads : Payloads P
payloads = record {
  of_goal = λ goal. (goal, none);
  of_result = λ goal r. (goal, some r);
  goal_of = λ p. some p.0;
  result_of = λ p. p.1;
  result_of-of_result = λ goal r. refl;
  result_of-of_goal = λ goal. refl;
}

abbrev table : Database P
table = table_of P

abbrev finished_run : AutonomousResult
finished_run = record {
  goal = "ship";
  iterations =
      record {
        plan = record { steps = "ship" ∷ [] };
        actions = "{}";
        reflection = record { goal_met = true; missing = ""; next_focus = "" };
      }
      ∷ [];
  memory = "Round result: {}" ∷ [];
  final_answer = "{}";
  completed = true;
  cost_usd = some 6;
}

abbrev clock : ℕ → ℕ
clock w = w

abbrev no_text : Outcome → String
no_text o = "failed"

abbrev pending_store : List (AgentRun P)
pending_store = new_row 0 "a1" kind "pending" ("ship", none) (some "k") ∷ []

program : Unit {0}
unfolding run_autonomous iterate_rounds round act_and_reflect reflect act build_act_agent memorize
    advance conclude parse_plan parse_reflection extract_json run_agent start run_rounds take_turn
    after_turn finish extend absorb maybe_compact should_compact estimate_tokens choose_cut
    leading_results build run_calls add_usage add_cost concat join
program = tt

run_autonomous-ship : run_autonomous auto "ship" 3 0 ≡ (done finished_run, 3)
unfolding program
run_autonomous-ship = refl

-- The store behind the run, and behind a second delivery of it.
abbrev ended : List (AgentRun P)
ended =
    (ending table payloads auto clock no_text (λ s. s) (λ r w. w) 900 "a1" "ship" pending_store 0).1

abbrev redelivered : List (AgentRun P)
redelivered =
    (delivered table payloads auto clock no_text (λ s. s) (λ r w. w) 900 "a1" "ship" ended 40).0

execute_run-once_example :
    (delivered table payloads auto clock no_text (λ s. s) (λ r w. w) 900 "a1" "ship" pending_store 0
      ≡ (
        ended,
        traced table payloads auto clock no_text
            (λ s. s)
            (λ r w. w)
            (outcome table payloads auto clock no_text (λ s. s) (λ r w. w) "ship" 0).0
            (outcome table payloads auto clock no_text (λ s. s) (λ r w. w) "ship" 0).1,
      ))
    × (get_run table "a1" redelivered
        ≡ some (
            to_record
              (record (new_row 0 "a1" kind "completed" ("ship", some finished_run) (some "k")) {
                updated_at = 3;
              })))
    × IsTerminal "completed"
    × ((delivered table payloads auto clock no_text
          (λ s. s)
          (λ r w. w)
          900
          "a1"
          "other"
          redelivered
          50).1
        ≡ 50)
unfolding program write_end upsert_run session_get claim_run claimable to_record
execute_run-once_example =
    execute_run-once table payloads auto clock no_text (λ s. s) (λ r w. w) 900 900 "a1" "ship"
      "other" pending_store redelivered 0 50
      (to_record (record (new_row 0 "a1" kind "completed" ("ship", some finished_run) (some "k")) {
        updated_at = 3;
      }))
      (answers_selects P) (answers_updates P) (refl, tt) (refl, tt) refl refl
      (delivery ended 900 "ship" 40 at_once)

parse_plan-null :
    parse_plan (λ t. some (object (field "steps" null no_fields))) (λ j. "") (λ t. t) "{}" "ship"
    ≡ none
parse_plan-null =
    parse_plan_crashes (λ t. some (object (field "steps" null no_fields))) (λ j. "") (λ t. t) "{}"
      "ship" (field "steps" null no_fields) null (unfold extract_json in refl) refl refl

abbrev queue : Redis (Memory.Raw P) P
queue = redis_of (λ a b. a.0 == b.0) (λ p. eq_refl p.0)

submit-once_example :
    (submit table payloads queue 0 "a1" "ship" (some "k") [] (λ k. []) ≡ (
      handle (record { run_id = "a1"; status = "pending" }),
      pending_store,
      enqueue queue (job_of table payloads queue "a1" "ship") (λ k. []),
    ))
    × (submit table payloads queue 9 "b2" "again" (some "k") pending_store (λ k. [])
        ≡ (handle (record { run_id = "a1"; status = "pending" }), pending_store, λ k. []))
    × (submit_new table payloads queue 9 "b2" "again" (some "k") pending_store (λ k. [])
        ≡ (handle (record { run_id = "a1"; status = "pending" }), pending_store, λ k. []))
unfolding clashes
submit-once_example =
    submit-once table payloads queue 0 9 "a1" "b2" "ship" "again" "k" [] pending_store (λ k. [])
      (λ k. []) (answers_selects P) refl refl (unfold get_run_by_idempotency_key in refl) refl refl
