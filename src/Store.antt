-- ===== src/Store.antt =====
-- Package store: records, the interface of a store, the in-memory store and the reconcile engine.
pub mod Records
pub mod Memory
pub mod Sqlite
pub mod Engine
pub mod Ulid
pub mod Targets
