-- ===== src/Risk.antt =====
-- backend/app/risk_engine.py: how risky a request is.
pub mod Engine
pub mod EngineLaws
mod Tests
