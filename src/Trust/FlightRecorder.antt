-- ===== src/Trust/FlightRecorder.antt =====
-- backend/app/trust_flight_recorder.py: a store of events, each of which has the hash of the one
-- before it. SHA-256 over the canonical form of an event's material is a parameter, and so are a
-- fresh event id and the clock.
pub mod Chain
pub mod ChainLaws
pub mod History
