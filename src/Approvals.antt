-- ===== src/Approvals.antt =====
-- Approvals: backend/app/approval_lifecycle.py.
pub mod Models
pub mod Integrity
pub mod Lifecycle
pub mod LifecycleLaws
pub mod Fixtures
mod Tests
