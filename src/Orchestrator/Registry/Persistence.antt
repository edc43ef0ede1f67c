-- ===== src/Orchestrator/Registry/Persistence.antt =====
-- A stored run outlives the process that stored it; `_store` keeps the cache bounded, which `_load`
-- and a repeated `run_workflow`, who put a run into it too, do not.
use ai_agents_enterprise.Prelude.{◌≡◌, ap, ◌∙◌, []}
use ai_agents_enterprise.RunStore.Database.{Database}
use ai_agents_enterprise.RunStore.Operations.{RunRecord}
use ai_agents_enterprise.Orchestrator.Types.{WorkflowRun}
use ai_agents_enterprise.Orchestrator.Registry.{Codec, Registry, reply, remember, rehydrate}

-- A process that starts on the store of another one.
abbrev pub restarted : {V Store : Type 0} → Registry V Store → Registry V Store
restarted g = record { cache = []; store = g.store }

module _ {V P : Type 0} (db : Database P) (codec : Codec V P) where
  open db use {Store}
  open codec use {dump, model_validate, model_validate-dump}

  pub rehydrate_dumped :
      (run : WorkflowRun V) (r : RunRecord P) (g : Registry V Store)
      → r.payload ≡ dump run
      → rehydrate db codec r g ≡ (reply run, remember run g)
  unfolding rehydrate
  rehydrate_dumped run r g e = rw (rehydrate, ap model_validate e ∙ model_validate-dump run)
