-- ===== src/Jobs/Worker.antt =====
-- One message of the worker.
use ai_agents_enterprise.Prelude.{
  ◌≡◌, ◌∙◌, none, some, Option-cases, List, [], ◌∷◌, ◌++◌, inl, inr, Dict, get,
}
use ai_agents_enterprise.Jobs.Redis.{jobs, processing, dead, Redis}
use ai_agents_enterprise.Jobs.Queue.{Handler, dispatch, process, consume_one}

module _ {R P W : Type 0} (redis : Redis R P) (handlers : Dict (Handler P W)) where
  open redis use {
    Server, items, lpush, blmove, lrem, dump, validate, raw_eq, raw_eq_refl, items-lpush,
    items-lrem, items-blmove,
  }

  -- The world after a raw message: a text that is no job, and a job of a kind without a handler,
  -- leave it as it is; otherwise the handler has run on the job's run and payload.
  abbrev pub handled : R → W → W
  handled raw w = elim (validate raw) [
    | none ↦ w
    | some job ↦ elim (get handlers job.kind) [
      | none ↦ w
      | some handler ↦ (handler job.run_id job.payload w).1
    ]
  ]

  process_lem :
      (raw : R) (s : Server) (w : W)
      → process redis handlers raw s w ≡ (lrem processing raw s, handled raw w)
  unfolding process dispatch
  process_lem raw s w = elim (Option-cases (validate raw)) [
    | inl e ↦ rw (process, handled, e)
    | inr (job, e) ↦ rw (process, handled, e)
  ]

  -- When the oldest message `raw` is moved to the processing list, it has left both lists after its
  -- round: the job list is as before without its last item, the processing and the dead-letter
  -- lists are as before. If it reads as a job of a kind with a handler, the world is the one in
  -- which this handler ran once, on its run and payload, whether or not the handler raised; if it
  -- reads as no job, or no handler is registered, no handler ran and the world is as before.
  pub consume_one-acknowledged :
      (s s' : Server) (w : W) (raw : R)
      → blmove jobs processing s ≡ some (raw, s')
      → (rest : List R) × (t : Server) × (consume_one redis handlers s w ≡ (t, handled raw w))
        × (items s jobs ≡ rest ++ raw ∷ [])
        × (items t jobs ≡ rest)
        × (items t processing ≡ items s processing)
        × (items t dead ≡ items s dead)
  unfolding consume_one
  consume_one-acknowledged s s' w raw popped =
      let (rest, before, j, p, d) = items-blmove s popped in
      (
        rest,
        lrem processing raw s',
        rw (consume_one, popped) (process_lem raw s' w),
        before,
        items-lrem processing raw s' jobs ∙ j,
        items-lrem processing raw s' processing ∙ rw (p, raw_eq_refl raw),
        items-lrem processing raw s' dead ∙ d,
      )
