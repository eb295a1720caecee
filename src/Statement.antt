-- ===== src/Statement.antt =====
-- src/statement.c and include/statement.h: preparing and executing statements.
pub mod Text
pub mod Prepare
pub mod Execute
pub mod Printed
