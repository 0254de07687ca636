-- ===== src/SchemaMgr.antt =====
-- The dataset registry, engine/schemamgr.
pub mod Dataset
pub mod Ddl
pub mod Infer
pub mod Database
pub mod Store
pub mod Http
pub mod Tests
