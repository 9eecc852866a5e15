-- ===== src/Collector.antt =====
-- The TLS collector (certlight/collector.go).
pub mod Connection
pub mod Checks
pub mod Collect
pub mod Accepted
