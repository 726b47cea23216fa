-- ===== src/Db.antt =====
-- primitives/dbops.go over dgwdb/database.go: what a node keeps in LevelDB.
pub mod Defs
pub mod Chain
pub mod Keys
pub mod Settings
pub mod Tables
pub mod Tests
