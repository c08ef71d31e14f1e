-- ===== src/Store.antt =====
-- The database of packages/infrastructure: the rows of its tables, the texts and keys that they
-- hold, and a transaction over them.
pub mod Keys
pub mod Rows
pub mod CaseRows
pub mod Db
pub mod Monad
pub mod Tables
