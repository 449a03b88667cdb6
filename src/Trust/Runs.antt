-- ===== src/Trust/Runs.antt =====
-- How the trust plane meets durable runs: trust_action_authorization.py, agent_run_trust.py and
-- trust_run_capability.py of backend/app.
pub mod Store
pub mod Authorize
pub mod Keeps
pub mod AuthorizeLaws
pub mod Bound
pub mod Attach
pub mod Actions
pub mod StepTrust
pub mod Shares
pub mod StepTrustLaws
mod Tests
