-- ===== src/Metrics.antt =====
-- Package metrics: the caches of the collector and the writer of the database.
pub mod Cache
pub mod Collector
pub mod DbWriter
