-- ===== src/AgentRun.antt =====
-- Mission Control: durable agent runs, their steps and the supervisor.
pub mod Models
pub mod StateMachine
pub mod Verifier
pub mod Faults
pub mod Supervisor
pub mod Fixtures
mod Tests
