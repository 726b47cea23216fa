-- ===== src/Node/Signing.antt =====
-- node/node_sign.go: the results of the nodes for a transaction to sign.
pub mod Defs
pub mod Save
pub mod Counts
pub mod Quorum
pub mod Kept
pub mod Once
mod Tests
