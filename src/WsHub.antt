-- ===== src/WsHub.antt =====
-- The WebSocket hub, engine/wshub.
pub mod RateLimit
pub mod Subscriptions
pub mod Polling
pub mod Hub
mod Tests
