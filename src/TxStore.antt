-- ===== src/TxStore.antt =====
-- primitives/txstore.go: the pool of watched transactions and of the gateway's own transactions.
pub mod Defs
pub mod Pool
pub mod Heartbeat
pub mod Validate
pub mod Accepted
pub mod Committed
pub mod Timeouts
pub mod Queries
pub mod Tests
