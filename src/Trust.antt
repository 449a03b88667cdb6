-- ===== src/Trust.antt =====
-- The trust plane of the backend: backend/app/trust_*.py.
pub mod Models
pub mod Leases
pub mod Records
pub mod Payload
pub mod Policy
pub mod FlightRecorder
pub mod State
pub mod Service
pub mod Runs
mod Tests
