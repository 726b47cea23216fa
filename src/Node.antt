-- ===== src/Node.antt =====
-- node/: the checks of the messages that a node receives, its leader, the signing of transactions and the
-- catching up with the others.
pub mod Check
pub mod Leader
pub mod Signing
pub mod Sync
mod Samples
