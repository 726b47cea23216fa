-- ===== src/Node/Check.antt =====
-- node/msg_validation.go.
pub mod Result
pub mod Basic
pub mod Votes
pub mod Packs
pub mod Requests
pub mod Certificates
pub mod Shared
pub mod Linked
mod Tests
