-- ===== src/Api.antt =====
-- The HTTP server, engine/api.
pub mod RateLimit
pub mod ClickHouse
pub mod World
pub mod Routes
pub mod Server
pub mod Ingest
