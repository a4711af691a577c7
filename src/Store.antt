-- ===== src/Store.antt =====
-- adapters/store-sqlcipher: the encrypted account database. The SQL statements of the source are
-- functions on its tables; SQLite itself is the schedule of statement failures.
pub mod Schema
pub mod Connection
pub mod Sql
pub mod Messages
pub mod Reader
pub mod Identity
pub mod Binding
pub mod Lifecycle
pub mod Invariant
pub mod Refinement
