-- ===== src/Node/Leader.antt =====
-- node/leader.go: how a node becomes the leader of its term, and what it then proposes.
pub mod Defs
pub mod Propose
pub mod Loop
pub mod Pool
pub mod Steps
pub mod Safe
pub mod Supported
mod Tests
