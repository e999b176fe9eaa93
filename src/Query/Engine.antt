-- ===== src/Query/Engine.antt =====
-- crates/query/src/engine.rs and crates/query/src/guardrail.rs: the guarded way from a segment to
-- its rows. The reader (DuckDB behind crates/execution) is a parameter, a function of the statement
-- and its parameters: one state of the store.
pub mod Reader
pub mod Catalogue
pub mod Run
pub mod Catalogued
pub mod Survivors
pub mod Guarded
pub mod Narrowing
