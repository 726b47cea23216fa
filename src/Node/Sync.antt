-- ===== src/Node/Sync.antt =====
-- node/sync_daemon.go: the application of a sync response.
pub mod Check
pub mod Defs
pub mod Vouched
pub mod Served
mod Tests
