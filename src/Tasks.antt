-- ===== src/Tasks.antt =====
-- Agent tasks: backend/app/agent_task_models.py, agent_worker_claims.py, agent_task_retry.py and
-- agent_task_cancel.py.
pub mod Models
pub mod Claims
pub mod ClaimLaws
pub mod Operator
pub mod OperatorLaws
pub mod Fixtures
mod Tests
