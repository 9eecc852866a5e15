-- ===== src/Cmd.antt =====
-- The command (cmd/certlight): its channels, its start, and what a restart restores.
pub mod Channels
pub mod Restart
pub mod Startup
