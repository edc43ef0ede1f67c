-- ===== src/Lib.antt =====
-- The agent workbench: its workflow engine, its durable runs and their queue, the boundary of its
-- gateway, the audited tool gateway, the model runtime, and the guards that its tools stand behind.
--
-- Workflows are driven by the engine and stored as run records. The gateway puts runs on the queue,
-- at start-up the ones that had not ended; the worker takes a message, claims the run in the store,
-- and drives it. Agents ask the model router, which falls back along a chain of providers, and
-- call tools, whose URLs and queries pass the guards.
--
-- Prelude: shared lists, dictionaries with text keys, Boolean tests and texts.
-- Orchestrator: platform/orchestrator/src/workbench_orchestrator/engine.py and types.py. A workflow run
--   is a record of the fields of WorkflowRun; `_drive` is `drive`, its loop `loop` and `round`, its
--   retry loop `try_step`; `execute` and `resume` are the entry points. A step's function acts on a
--   world `W` and returns an update or raises; a branch function may raise too, which leaves the engine. The loop has fuel 26: the code stops at 25 executed steps, and each
--   round but the last executes one.
--   The registry of workflows and the cache of runs over the store, with their listing, registry.py, are
--   Orchestrator/Registry, the endpoints of api.py Orchestrator/Api; their order of requests is the order of calls. pydantic's
--   model_dump_json and model_validate_json are an argument with the law that they are inverse.
-- RunStore: platform/observability/src/workbench_observability/runs.py over the table of models.py,
--   with RunRecord of schema.py. The table is a list of rows, and a statement that commits is one step.
--   The listings are RunStore/Listings.
-- Jobs: platform/jobs/src/workbench_jobs/queue.py and platform/gateway/src/workbench_gateway/reconcile.py.
--   The Redis server is the interface of Jobs/Redis, with the documented effects of its list commands
--   as laws, and Jobs/Memory has a server of three lists. A job is built and read only with a kind and an
--   identifier of the patterns of `Job`, which `is_job` tests; a ValidationError in between
--   ends `reconcile_runs`. A negative count of attempts, which only a foreign message can have, is not modelled. `reclaim` has fuel for one
--   round more than the length of the processing list, of which each round removes one message.
-- Gateway: platform/gateway/src/workbench_gateway/security.py: the production check, the API key and the security
--   headers in Gateway/Security, the rate limit in Gateway/RateLimit. Times are whole microseconds.
-- ToolGateway: platform/toolgateway/src/workbench_toolgateway/gateway.py and types.py.
-- Runtime: platform/runtime/src/workbench_runtime: types.py, pricing.py and `add_cost` in Runtime/Types,
--   router.py in Runtime/Router, context.py in Runtime/Context, agent.py and tools.py in Runtime/Agent.
--   The provider clients are arguments; so are str.lower and json.dumps. A cost is counted in units of 10⁻⁸ USD, in
--   which every price of the table is a whole number for each token; a rounding of floats is not modelled. The
--   agent's loop recurs on the rounds that are left of max_steps.
-- Netguard: platform/shared/src/workbench_shared/netguard.py. URL and address parsers, the resolver and
--   the HTTP client are arguments. `safe_get` recurs on the rounds that are left of its redirects.
-- Compliance: apps/compliance_reviewer/src/workbench_app_compliance/policy.py. The matches of the
--   regular expressions are an argument, and the masked example of a finding is left out. reviewer.py is
--   Compliance/Review.
-- SqlGuard: platform/capabilities/src/workbench_capabilities/sql_guard.py. sqlglot is an argument.
-- Incident: apps/incident_response/src/workbench_app_incident/classify.py, without the evidence texts.
--
-- Autonomous: apps/autonomous_agent/src/workbench_app_autonomous/agent.py and api.py: the parsers of the
--   planner's and the reflector's answers in Autonomous/Answers, the rounds in Autonomous/Engine, the
--   submission and the background run over the run store and the queue in Autonomous/Runs. json.loads and
--   the model calls are arguments, and what the heartbeat and other workers do to the store while a run
--   works is the argument `meanwhile`. The rounds recur on those that are left of max_iterations, which is 3.
-- ComputerUse: apps/computer_use_qa/src/workbench_app_cua: sandbox.py in ComputerUse/Sandbox, runner.py
--   over the model of the tool gateway in ComputerUse/Runner, scenarios.py and the QA endpoints of api.py
--   in ComputerUse/Scenarios, and the loop of browse.py, with the policy on its actions, in
--   ComputerUse/Browse. The live page is an argument, and so are str.strip, str.lower and the clocks. The
--   loop recurs on the rounds that are left of max_steps, which is 7.
-- DeepResearch: apps/deep_research/src/workbench_app_research/research.py over the model of the tool gateway.
--   The turns of the models, json.loads and Python's str and str.strip are arguments.
--
-- Messages of errors are constructors where nothing reads their text. Logging is left out. Negative
-- numbers are modelled where the code treats them: in the settings of the rate limit.
--
-- Not modelled: the provider clients' HTTP calls and message formats, the trace store, retrieval and its
-- document index, the evaluations, the process and text-to-SQL applications, the drivers of a real browser,
-- the autonomous agent's file and SQL tools and its synchronous endpoint, the web interface, deployment
-- files and scripts. Most of them are input and output, or stand on libraries that the repository does not hold.
mod Prelude
pub mod RunStore
pub mod Jobs
pub mod Gateway
pub mod ToolGateway
pub mod Orchestrator
pub mod Runtime
pub mod Netguard
pub mod Compliance
pub mod SqlGuard
pub mod Incident
pub mod Autonomous
pub mod ComputerUse
pub mod DeepResearch
