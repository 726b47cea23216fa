-- ===== src/Accuser.antt =====
-- accuser/accuser.go: when a node accuses the leader.
pub mod Defs
pub mod Pace
pub mod Tests
