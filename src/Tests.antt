-- ===== src/Tests.antt =====
-- Concrete pages, trees, rows and tables, and what the theorems say of them.
pub mod Pages
mod Nodes
mod Rows
mod Files
mod Writes
mod Versions
pub mod Transactions
mod Trees
mod Pools
mod Commands
mod Scans
