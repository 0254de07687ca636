-- ===== src/QueryBroker.antt =====
-- The query broker, engine/querybroker.
pub mod Quota
pub mod Cache
pub mod Audit
pub mod Broker
mod Tests
