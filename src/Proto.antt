-- ===== src/Proto.antt =====
-- proto/braft.proto and proto/pbtypes_ext.go: the messages, the identifiers that are hashed from
-- them, and the order of the blocks that are voted for.
pub mod Types
pub mod Blocks
pub mod Feed
pub mod Ids
pub mod MsgIds
pub mod Create
pub mod Convert
pub mod Payouts
pub mod Overpaid
pub mod Exact
pub mod KeyOrder
pub mod Votes
mod Tests
