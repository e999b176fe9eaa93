-- ===== src/Core.antt =====
-- crates/core/src: the types and checks that the other crates share.
pub mod Ident
pub mod Config
pub mod Dataset
pub mod Freshness
pub mod Labels
