-- ===== src/Connectors.antt =====
-- backend/app/connector_webhook.py: the rate limit and the replay check of a connector's webhook.
pub mod Webhook
pub mod RateLimit
pub mod Replay
mod Tests
