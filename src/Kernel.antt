-- ===== src/Kernel.antt =====
-- The vocabulary that the other packages share, kernel/.
pub mod Errors
pub mod Permissions
pub mod Schemas
pub mod Settings
