-- ===== src/Trust/Service.antt =====
-- backend/app/trust_service.py, trust_consumption.py, trust_decisions.py and trust_credentials.py.
pub mod Reviews
pub mod Issue
pub mod Lifecycle
pub mod Consume
pub mod Credentials
pub mod Moves
pub mod Covered
pub mod Sound
pub mod Writes
pub mod UseWrites
pub mod Reach
pub mod Introspect
pub mod Sanction
pub mod IssueLaws
pub mod ConsumeLaws
pub mod Charge
pub mod Fixtures
mod Tests
