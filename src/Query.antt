-- ===== src/Query.antt =====
-- crates/query/src: the segment DSL, its validation, its compilation to SQL, and the guarded run.
pub mod Json
pub mod Ast
pub mod Fault
pub mod Validate
pub mod Compiler
pub mod Binding
pub mod Inlined
pub mod Touched
pub mod Engine
