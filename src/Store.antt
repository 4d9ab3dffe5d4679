-- ===== src/Store.antt =====
-- crates/igra/src/store.rs: the SQLite tables and the operations on them.
pub mod Types
pub mod Db
pub mod Lock
pub mod Atomic
pub mod Operation
pub mod Tables
pub mod Schedule
pub mod Nonce
pub mod Lifecycle
pub mod Profile
pub mod Prune
pub mod Open
pub mod Regression
