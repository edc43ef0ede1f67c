-- ===== src/Autonomous.antt =====
-- apps/autonomous_agent, workbench_app_autonomous: the answers of the planner and of the judge
-- (agent.py), the loop of planning, acting and reflecting, and the endpoints with their background
-- runs (api.py).
pub mod Answers
pub mod Engine
pub mod Runs
