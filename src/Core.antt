-- ===== src/Core.antt =====
-- Package core: the normalised finding and the metadata of a collector (core/finding.go,
-- core/collector.go).
pub mod Severity
pub mod Value
pub mod Finding
pub mod Collector
