-- ===== src/Lib.antt =====
-- gnaro: a small database inspired by SQLite, one table of rows (id, username, email) in a B-tree
-- of 4096-byte pages over one file.
--
-- How the parts interact. src/statement.c parses a line and runs it; an insert looks up its id
-- through src/cursor.c and stores the row through src/btree.c; a select walks the leaves with a
-- cursor. The tree asks src/pager.c for pages, which it reads and writes in place, row by row with
-- src/row.c; src/database.c opens the file and flushes the pages when it closes.
--
-- Memory. A page is a function from offsets to bytes, and a pointer to a page is the page's
-- number, since a page stays where it is until the database is closed. So a read through the wrong
-- type of node reads the bytes that lie there, as in C. A command (Memory) takes the state of the
-- pager and ends with a value, with exit, with undefined behaviour (an access outside the 4096
-- bytes of a page or to a page that is not allocated), or out of fuel. Words are stored least
-- significant byte first, and the arithmetic of uint32_t is written out modulo 2 ^ 32.
--
-- Files. Base: shared names and tests. Memory, Memory.Bytes, Memory.Laws: pages, commands and what
-- they do. Row, Row.RoundTrip: src/row.c, include/row.h. Pager: src/pager.c, include/pager.h, with
-- Pager.Cache and Pager.Steps on what the calls do and Pager.Disk on the file. Btree.Layout: the
-- constants of include/btree.h. Btree.Node, Btree.Leaf, Btree.Internal, Btree.Root, Btree.Grow,
-- Btree.Insert, Btree.Print: the functions of src/btree.c, without their prefix btree_node_
-- (leaf_insert is btree_node_leaf_insert, and internal_insert_with is btree_node_internal_insert
-- over the function that splits a full node), with the proofs in child modules. Cursor:
-- src/cursor.c, with Cursor.Descent on the search in a tree of any height. Statement.Text,
-- Statement.Prepare, Statement.Execute: src/statement.c. Database: src/database.c, with
-- Database.Flushed, Database.Close and Database.Reopen on what closing leaves in the file, and
-- Database.Written and Database.Failing on lseek and write that fail. Input: src/input.c. Meta:
-- src/meta.c. Repl: the loop of main in src/gnaro.c, with Repl.Ends on its rounds; Program: its
-- arguments and exit codes, with Program.Endings on how a run ends. Interface: the headers as
-- records of operations, and what their implementations promise. Table: what a user sees of it
-- all, as a sorted list of cells, with Table.Open and Table.Opening on how a database opens, with
-- Table.TwoLevels and Table.FirstSplit on the tree that the first split leaves, Table.Chain and
-- Table.SelectTree on a select over a tree's leaves, Table.Search on inserts into a tree of any
-- height, and Table.PrintTree on the printed tree. Tests: runs and instances.
--
-- Parameters. Pager.Env holds what the system decides: the bytes that malloc leaves in a new page,
-- at which offsets read, lseek and write fail, and where the file stands after an lseek that
-- failed. An lseek that fails when the file is opened is the answer none to open, since pager_open
-- returns a null pointer for both. The theorems on sessions suppose that reads do not fail; those
-- on the single calls and on the ends of a run do not.
--
-- Fuel. The binary searches are given one unit more than there are cells, which is enough since
-- each round shortens the range. The descent in the tree and the walk of a select take their fuel
-- as an argument; the theorems state how much is enough: one unit more than the height of the tree
-- for the descent, and one more than there are rows for a select. The loop of main has a round
-- more than the input has bytes, which is enough since each round reads one.
--
-- Not modelled. Log messages and the log level, which have no effect on the state; freeing of
-- memory; a write of fewer bytes than it was given; the overlap of a memcpy with itself, which is
-- taken to leave the bytes as they are; the text that btree_print prints around its numbers;
-- input_prompt has no caller. lib/log and lib/argtable are copies of other projects: arg_parse of
-- the second is a parameter of Program.
pub mod Base
pub mod Memory
pub mod Row
pub mod Pager
pub mod Btree
pub mod Cursor
pub mod Statement
pub mod Database
pub mod Table
pub mod Input
pub mod Meta
pub mod Repl
pub mod Program
pub mod Interface
pub mod Tests
