-- ===== src/Query/Compiler.antt =====
-- crates/query/src/compiler.rs. A function that pushes to `params: &mut Vec<Value>` takes the
-- parameters so far and returns them beside its text. A literal of the source is `text "…"`, with
-- the line continuations of Rust joined.
pub mod Types
pub mod Pieces
pub mod Predicates
pub mod Events
pub mod Filters
pub mod Metrics
pub mod Segments
pub mod Profiles
