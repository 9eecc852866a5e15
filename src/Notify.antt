-- ===== src/Notify.antt =====
-- Package notify: the dispatcher that turns reconcile results into digests (notify/notify.go,
-- notify/bridge.go).
pub mod Digest
pub mod Dispatcher
pub mod Batching
pub mod Delivery
pub mod Windows
pub mod Loss
pub mod Sorting
pub mod Retry
pub mod Format
pub mod Channels
pub mod Syslog
pub mod Hfs
