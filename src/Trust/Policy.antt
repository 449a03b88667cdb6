-- ===== src/Trust/Policy.antt =====
-- backend/app/trust_policy.py: whether a proposed action lies inside its capability lease.
pub mod Paths
pub mod Evaluate
pub mod Within
pub mod AllowLaws
pub mod PathLaws
pub mod Fixtures
mod Tests
