-- ===== src/Sched.antt =====
-- Package sched: the scheduler (sched/scheduler.go).
pub mod Config
pub mod Backoff
pub mod Registry
pub mod Sweep
pub mod Scan
pub mod Announcement
pub mod Loop
