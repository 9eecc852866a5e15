-- ===== src/Tests.antt =====
-- The witnesses of the theorems, at concrete inputs, and runs of the definitions.
mod Collector
mod Engine
mod Channels
mod Dashboard
mod Sqlite
mod License
mod Notify
mod Sched
mod Loop
mod Routes
mod Startup
mod Web
mod Ulid
