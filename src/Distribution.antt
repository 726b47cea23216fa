-- ===== src/Distribution.antt =====
-- distribution/: the proposals that pay out of a multi-signature address.
pub mod Defs
pub mod Spec
pub mod Load
pub mod Refines
pub mod Replaced
mod Tests
