-- ===== src/Storage.antt =====
-- crates/storage/src/lib.rs: the single writer of the catalogue. DuckDB with DuckLake is a
-- parameter: a state, and what a statement replies and leaves of it.
pub mod Machine
pub mod Dedup
pub mod Chunks
pub mod Tables
pub mod Merges
pub mod Features
pub mod Appends
pub mod Maintenance
pub mod Atomic
pub mod Bounds
pub mod Names
