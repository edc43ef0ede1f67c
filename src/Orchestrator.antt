-- ===== src/Orchestrator.antt =====
-- platform/orchestrator, workbench_orchestrator: the workflow state machine with human approval
-- gates of engine.py and types.py, the registry of registry.py with its cache of runs, and the
-- endpoints of api.py.
pub mod Types
pub mod Engine
pub mod Registry
pub mod Api
mod Tests
