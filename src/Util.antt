-- ===== src/Util.antt =====
-- util/base.go: integers as the bytes of the database.
pub mod Codec
pub mod Order
mod Tests
