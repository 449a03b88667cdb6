-- ===== src/AgentRun/StateMachine.antt =====
-- backend/app/agent_run_state_machine.py: the transition tables of runs and of steps, the two
-- transition functions, and the status that the steps of a run add up to.
pub mod Runs
pub mod Steps
pub mod Derive
pub mod RunLaws
pub mod StepLaws
pub mod DeriveLaws
