-- ===== src/Consumers.antt =====
-- src/github_analytics/consumers: the two Kafka consumers, the dead-letter boundary, and the
-- storages that they write to.
pub mod Protocols
pub mod Dlq
pub mod RawStorage
pub mod Warehouse
pub mod PrStorage
pub mod PrMonitor
