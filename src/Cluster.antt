-- ===== src/Cluster.antt =====
-- cluster/cluster.go and cluster/params.go: the node list and the quorum sizes.
-- The package's variables are one record, which each function takes and returns. Node identifiers,
-- sizes and heights are natural numbers; `ClusterSize` is never decremented at 0, since a node
-- is counted while it is normal (Cluster/Invariant).
pub mod Defs
pub mod Init
pub mod Quorum
pub mod Invariant
pub mod Restored
pub mod Start
pub mod Leader
mod Tests
