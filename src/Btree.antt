-- ===== src/Btree.antt =====
-- src/btree.c and include/btree.h: the B-tree over the pages of the pager.
pub mod Layout
pub mod Node
pub mod Leaf
pub mod Internal
pub mod Root
pub mod Grow
pub mod Insert
pub mod Print
pub mod Blocks
