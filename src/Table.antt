-- ===== src/Table.antt =====
-- The table that a user of src/statement.c sees: rows ordered by id.
pub mod Single
pub mod Refine
pub mod Select
pub mod Open
pub mod Opening
pub mod Session
pub mod Same
pub mod Durable
pub mod Chain
pub mod SelectTree
pub mod TwoLevels
pub mod Grow
pub mod FirstSplit
pub mod Search
pub mod PrintTree
