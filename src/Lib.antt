-- ===== src/Lib.antt =====
-- Verification of AtomixDB, a small relational database in Go.
--
-- The program keeps tables in a B+ tree. database/commands.go reads a command, checks it against a
-- table definition (database/record.go, database/updates.go, database/indexes.go), encodes the row
-- to a key and a value (database/record.go) and hands both to the tree (database/b_tree.go), whose
-- pages live behind three callbacks that the store (database/persist.go, database/free_list.go,
-- database/transactions.go) provides.
--
-- Prelude: a run returns, panics or exhausts its fuel (`Run`); Boolean tests; lists over the native
--   ℕ, under the library's names.
-- Bytes: byte strings, little-endian integers in them, slices and copies; bytes.Compare is
--   Bytes/Order.
-- Node: the pages of database/b_tree.go as bytes. b_node_type is bNodeType, node_append_range is
--   nodeAppendRange, and so on, one definition for each function, and one for each loop or late
--   part of it. Node/Layout states the page format, Node/Sorted the map that a page stands for.
-- Pager: the callbacks `get`, `new` and `del` of BTree, which are a parameter here.
-- Tree: Insert, Get and Delete of BTree with the functions below them. Tree/Root relates them to
--   finite maps where the root is a leaf, Tree/Search relates Get to them in a tree of any height,
--   whose inner nodes Tree/Kids describes.
-- Codec: encodeKey, encodeValues, decodeValues and the escape functions of database/record.go.
-- Table: Record and TableDef of database/record.go, the checks of definitions and rows, and the
--   choice of an index in database/indexes.go.
-- Tree/Iterator: BIter of database/range.go and the range of a Scanner over it.
-- Store: the master page, the growth of the file and, in Store/Memory, the mapped memory of
--   database/persist.go.
-- Updates: SetWithMode, dbUpdate, dbDelete and TableNew of database/updates.go, indexOp and
--   encodeKeyPartial of database/indexes.go, over an interface of what KVTX does with its tree and
--   pages (`Kvtx`), which Updates/Stored fills with the tree and flushPages of a transaction;
--   Updates/First is about the first pair of a tree.
-- FreeList: Pop, the fields of a node and the loop of Total of database/free_list.go.
-- Transaction: KV, KVTX, the page callbacks and writePages of database/persist.go, Add and flPush of
--   database/free_list.go, and Begin, Commit and Abort of database/transactions.go. `Writer` is a
--   store with the transaction that writes to it; `System` is what the operating system does.
--   Transaction/Callbacks has the calls between Begin and the end of a transaction, with flushPages,
--   and Transaction/Kept what each of them leaves; Transaction/Outcome is about what a commit leaves to
--   the next transaction and the next start, Transaction/Freeing and Transaction/FreeAdd about the same
--   where the transaction frees pages.
-- Workers: the pool of database/workers.go. Each function of the pool is the change that one of its
--   steps makes; Workers/Steps has the steps of dispatch, the workers, Submit and stop, Workers/Order,
--   Counts, Balance and Progress what they keep.
-- Sessions: the transactions of the commands in database/commands.go and the loop of StartDB in
--   database/database_impl.go that serves them. What a statement does to the tree is a parameter.
-- Scan: rows through a scanner. dbScan and Scanner.Deref of database/range.go, dbGet of
--   database/record.go, GetRange of database/updates.go; Scan/Whole is database/table_scanner.go.
-- Tests: concrete pages, trees, rows and tables.
--
-- Conventions. A uint16 or uint64 is a natural number, and where the source's arithmetic can wrap,
-- `u16` and `u64` take the remainder. An int64 is its bit pattern below 2 ^ 64. A slice's capacity
-- is its length. `BNode{}` is the empty list. Names of tables and columns are byte strings. A failed
-- assertion and an index out of range are `panic`. A descent of the tree recurs on fuel: one unit
-- for each level is enough, so a tree whose root is a leaf needs one.
-- `extendFile` recurs on the number of pages asked for, since each round adds one page at least; a
-- walk of the free list on the number of its nodes, and flPush on that of the freed pages.
-- The updates of a transaction are a list in the order of their first writes; a Go map has no order.
-- The mapped memory is shared between a store and its transaction, which sees its first chunks only.
--
-- A task of the pool is known by a number. A session is given the commands that are read, each with
-- what its statement does; a wait for the writer lock that nobody can end is `none`.
--
-- Scanner.Deref and dbGet call each other where a scanner runs on an index; `depth` bounds that, and
-- one unit is enough on the primary key. The loop of fullTableScan has a unit of fuel for each row and
-- one more.
--
-- Not modelled: InsertEx and DeleteEx, the cache of table definitions, Get and Update of the
-- free list, the heap of readers and the queries that `get` runs; and memory mapping, system calls,
-- terminal input and JSON, which are other code.
pub mod Prelude
pub mod Bytes
pub mod Node
pub mod Pager
pub mod Tree
pub mod Codec
pub mod Table
pub mod Store
pub mod Updates
pub mod FreeList
pub mod Transaction
pub mod Workers
pub mod Sessions
pub mod Scan
pub mod Tests
