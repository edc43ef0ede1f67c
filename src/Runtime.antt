-- ===== src/Runtime.antt =====
-- platform/runtime, workbench_runtime: messages and prices (types.py, pricing.py, _util.py), the
-- model router (router.py), the context engine (context.py) and the agent loop (agent.py,
-- tools.py).
pub mod Types
pub mod Router
pub mod Context
pub mod Agent
mod Tests
