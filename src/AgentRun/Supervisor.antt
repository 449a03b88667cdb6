-- ===== src/AgentRun/Supervisor.antt =====
-- backend/app/agent_run_supervisor.py: the run leases, the choice of the next step, the application
-- of a result, and the operator's controls.
pub mod State
pub mod Moves
pub mod Leases
pub mod Select
pub mod Apply
pub mod Control
pub mod Execute
pub mod Recover
pub mod LeaseLaws
pub mod SelectLaws
pub mod ApplyLaws
pub mod DueLaws
pub mod PassLaws
pub mod CancelLaws
pub mod RecoverLaws
pub mod RetryLaws
pub mod RefusalLaws
mod Tests
