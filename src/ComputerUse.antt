-- ===== src/ComputerUse.antt =====
-- apps/computer_use_qa, src/workbench_app_cua: sandbox.py in ComputerUse/Sandbox, runner.py in
-- ComputerUse/Runner, scenarios.py and the QA endpoint of api.py in ComputerUse/Scenarios, and
-- browse.py in ComputerUse/Browse.
pub mod Sandbox
pub mod Runner
pub mod Scenarios
pub mod Browse
