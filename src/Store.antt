-- ===== src/Store.antt =====
-- internal/sqlite3store/store.go: the configuration that the SQLite plugin keeps.
pub mod Rows
pub mod Children
pub mod Subnets
pub mod Hosts
pub mod Effects
pub mod Lists
pub mod Directory
pub mod Ordered
pub mod Wrote
pub mod Valid
pub mod Outcome
pub mod Insert
pub mod Update
pub mod Delete
pub mod Reads
pub mod Changes
pub mod Held
pub mod Book
pub mod Schema
pub mod Names
pub mod Upgrade
