-- ===== src/Auth.antt =====
-- Users, API tokens and sessions, engine/auth.
pub mod Database
pub mod Store
pub mod Jwt
pub mod Middleware
pub mod Tests
