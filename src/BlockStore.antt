-- ===== src/BlockStore.antt =====
-- primitives/blockstore.go: the agreement on the next block. `Defs` to `Accuse` are the code, the others
-- are about it.
pub mod Defs
pub mod Votes
pub mod Init
pub mod Accuse
pub mod Commit
pub mod Keeps
pub mod Advance
pub mod Progress
pub mod Rounds
pub mod Accuses
pub mod Sound
pub mod SoundInit
pub mod First
pub mod Safety
pub mod Serve
pub mod Tests
