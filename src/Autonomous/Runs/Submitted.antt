-- ===== src/Autonomous/Runs/Submitted.antt =====
-- A repeated submission, across the run store and the queue.
use ai_agents_enterprise.Prelude.{ℕ, String, ◌≡◌, false, none, some, ◌==◌, eq_refl}
use ai_agents_enterprise.RunStore.Database.{Database, ok, integrity_error}
use ai_agents_enterprise.RunStore.Operations.{
  created, to_record, get_run_by_idempotency_key, create_run,
}
use ai_agents_enterprise.RunStore.Creation.{
  AnswersSelects, new_row, found_by_key, create_run-idempotent,
}
use ai_agents_enterprise.Jobs.Redis.{Redis, Job}
use ai_agents_enterprise.Jobs.Queue.{enqueue}
use ai_agents_enterprise.Autonomous.Runs.{
  Payloads, kind, handle, hand_off, submit_new, existing, submit,
}

module _ {P R : Type 0} (db : Database P) (payloads : Payloads P) (redis : Redis R P) where
  open db use {Store, insert}
  open redis use {Server}
  open payloads use {of_goal}

  -- The message of a run.
  abbrev pub job_of : (id goal : String) → Job P
  job_of id goal = record { kind = kind; run_id = id; payload = of_goal goal; attempts = 0 }

  create_first :
      (now : ℕ) (id goal key : String) (s s' : Store)
      → insert (new_row now id kind "pending" (of_goal goal) (some key)) s ≡ ok s'
      → create_run db now id kind "pending" (of_goal goal) (some key) s
        ≡ (created (to_record (new_row now id kind "pending" (of_goal goal) (some key))), s')
  unfolding create_run
  create_first now id goal key s s' first = rw (create_run, first)

  -- A first submission under a key stores a pending run and enqueues one job for it. A second
  -- submission under the key gets the handle of that run and enqueues nothing, whether it finds the
  -- run at its first look or only when its own INSERT is refused, and the store stays as it is. The
  -- key is not "", the first INSERT succeeds, the database answers SELECTs, refuses the second
  -- INSERT for the key, and the second identifier is another one.
  pub submit-once :
      (now now' : ℕ) (id id' goal goal' key : String) (s s' : Store) (q q' : Server)
      → AnswersSelects db
      → (key == "") ≡ false
      → (id == id') ≡ false
      → get_run_by_idempotency_key db kind key s ≡ none
      → insert (new_row now id kind "pending" (of_goal goal) (some key)) s ≡ ok s'
      → insert (new_row now' id' kind "pending" (of_goal goal') (some key)) s' ≡ integrity_error
      → (submit db payloads redis now id goal (some key) s q ≡ (
        handle (record { run_id = id; status = "pending" }),
        s',
        enqueue redis (job_of id goal) q,
      ))
        × (submit db payloads redis now' id' goal' (some key) s' q'
            ≡ (handle (record { run_id = id; status = "pending" }), s', q'))
        × (submit_new db payloads redis now' id' goal' (some key) s' q'
            ≡ (handle (record { run_id = id; status = "pending" }), s', q'))
  unfolding submit existing submit_new hand_off to_record
  submit-once now now' id id' goal goal' key s s' q q' up named other absent first again =
      let found = found_by_key db now id kind "pending" key (of_goal goal) s s' up named first in
      let same =
        create_run-idempotent db now now' id id' kind "pending" "pending" key (of_goal goal)
          (of_goal goal') s s' up named first again in
      (
        rw (submit, existing, absent, submit_new)
            (rw (create_first now id goal key s s' first) (rw (hand_off, eq_refl id))),
        rw (submit, existing, found),
        rw (submit_new, same) (rw (create_first now id goal key s s' first) (rw (hand_off, other))),
      )
