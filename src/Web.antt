-- ===== src/Web.antt =====
-- The handlers of the web server that change state (web/server.go).
pub mod Status
pub mod Targets
pub mod Licensing
pub mod Listing
pub mod Ai
pub mod Limit
pub mod Routes
