-- ===== src/Interface.antt =====
-- The headers under include/ as interfaces: for each a record of the operations that it declares, the
-- source file's functions as its implementation, and what the implementation promises.
pub mod PagerInterface
pub mod RowInterface
pub mod NodeInterface
pub mod TreeInterface
pub mod CursorInterface
pub mod DatabaseInterface
pub mod StatementInterface
pub mod InputInterface
