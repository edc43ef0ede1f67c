-- ===== src/Autonomous/Runs.antt =====
-- api.py: the submission of a background run, its execution by a worker, and its status. `P` is the
-- payload of a stored run. While a run works, its heartbeat and other processes change the store:
-- `meanwhile` is any such change.
pub mod Executed
pub mod Submitted
mod Tests
use ai_agents_enterprise.Prelude.{
  ℕ, String, ◌≡◌, Bool, true, false, Option, none, some, is_some, ◌==◌, ◌||◌, if◌then◌else◌,
}
use ai_agents_enterprise.RunStore.Database.{Database, ErrorText, text}
use ai_agents_enterprise.RunStore.Operations.{
  RunRecord, Created, created, reraised, get_run, get_run_by_idempotency_key, create_run, claim_run,
  upsert_run,
}
use ai_agents_enterprise.Jobs.Redis.{Redis, Job}
use ai_agents_enterprise.Jobs.Queue.{enqueue}
use ai_agents_enterprise.Autonomous.Engine.{
  Autonomy, AutonomousResult, Outcome, done, no_model, type_error, run_autonomous,
}

abbrev pub kind : String
kind = "autonomous"

abbrev pub default_max_iterations : ℕ
default_max_iterations = 3

-- The payload dicts `{"goal": …}` and `{"goal": …, "result": …}` and what is read of them.
pub record Payloads (P : Type 0) : Type 0 where
  pub of_goal : String → P
  pub of_result : String → AutonomousResult → P
  pub goal_of : P → Option String
  pub result_of : P → Option AutonomousResult
  pub result_of-of_result :
      (goal : String) (r : AutonomousResult) → result_of (of_result goal r) ≡ some r
  pub result_of-of_goal : (goal : String) → result_of (of_goal goal) ≡ none

abbrev pub status_of : AutonomousResult → String
status_of r = if r.completed then "completed" else "max_steps_reached"

pub record RunHandle : Type 0 where
  pub run_id : String
  pub status : String

pub record RunView : Type 0 where
  pub run_id : String
  pub status : String
  pub goal : Option String
  pub result : Option AutonomousResult
  pub error : Option ErrorText

-- A handle, or the server error of an IntegrityError.
pub data Submission : Type 0 where
  handle : RunHandle → Submission
  server_error : Submission

abbrev pub handle_of : {P : Type 0} → RunRecord P → RunHandle
handle_of r = record { run_id = r.run_id; status = r.status }

module _ {P : Type 0} (db : Database P) (payloads : Payloads P) where
  open db use {Store}
  open payloads use {of_goal, of_result, goal_of, result_of}

  unfoldable pub get_run_status : String → Store → Option RunView
  get_run_status run_id s = elim (get_run db run_id s) [
    | none ↦ none
    | some r ↦ some (record {
      run_id = r.run_id;
      status = r.status;
      goal = goal_of r.payload;
      result = result_of r.payload;
      error = r.error;
    })
  ]

  module _ {R : Type 0} (redis : Redis R P) where
    open redis use {Server}

    -- What follows on `create_run`: only a run of one's own is enqueued. Its kind is a literal and
    -- its identifier a uuid4 in hexadecimal, so that the job is always valid.
    unfoldable pub hand_off :
        (run_id goal : String) → Created P → Store → Server → Submission × Store × Server
    hand_off run_id goal reraised s q = (server_error, s, q)
    hand_off run_id goal (created r) s q =
        if r.run_id == run_id
        then (
          handle (record { run_id = run_id; status = "pending" }),
          s,
          enqueue redis
              (record { kind = kind; run_id = run_id; payload = of_goal goal; attempts = 0 }) q,
        )
        else (handle (handle_of r), s, q)

    -- `submit` behind its fast path; `run_id` is the fresh identifier.
    unfoldable pub submit_new :
        (now : ℕ) (run_id goal : String)
        → Option String
        → Store
        → Server
        → Submission × Store × Server
    submit_new now run_id goal key s q =
        let (c, s') = create_run db now run_id kind "pending" (of_goal goal) key s in
        hand_off run_id goal c s' q

    -- The run of the key, where the key is there and not empty.
    unfoldable pub existing : Option String → Store → Option (RunRecord P)
    existing none s = none
    existing (some key) s = get_run_by_idempotency_key db kind key s

    unfoldable pub submit :
        (now : ℕ) (run_id goal : String)
        → Option String
        → Store
        → Server
        → Submission × Store × Server
    submit now run_id goal key s q = elim (existing key s) [
      | some r ↦ (handle (handle_of r), s, q)
      | none ↦ submit_new now run_id goal key s q
    ]

  module _ {A I W : Type 0} (auto : Autonomy A I W) (clock : W → ℕ) (error_of : Outcome → String)
      (meanwhile : Store → Store) (record_run : AutonomousResult → W → W) where
    abbrev pub end_status : Outcome → String
    end_status (done r) = status_of r
    end_status o = "failed"

    abbrev pub end_payload : (goal : String) → Outcome → P
    end_payload goal (done r) = of_result goal r
    end_payload goal o = of_goal goal

    abbrev pub end_error : Outcome → Option ErrorText
    end_error (done r) = none
    end_error o = some (text (error_of o))

    -- The terminal state of the run is written.
    unfoldable pub write_end :
        (now : ℕ) → (run_id goal : String) → Outcome → Store → Option (RunRecord P) × Store
    write_end now run_id goal o s =
        upsert_run db now run_id kind (end_status o) (end_payload goal o) none (end_error o) s

    -- A result is traced.
    abbrev pub trace : Outcome → W → W
    trace (done r) w = record_run r w
    trace o w = w

    -- `_execute_run`
    unfoldable pub execute_run : (lease : ℕ) (run_id goal : String) → Store → W → Store × W
    execute_run lease run_id goal s w =
        let (won, s1) = claim_run db (clock w) run_id lease s in
        let (out, w') = run_autonomous auto goal default_max_iterations w in
        if won
        then ((write_end (clock w') run_id goal out (meanwhile s1)).1, trace out w')
        else (s1, w)
