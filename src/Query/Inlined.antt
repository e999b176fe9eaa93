-- ===== src/Query/Inlined.antt =====
-- The reference for the compiler: the same SELECT with every value written where it belongs, by
-- `render`, and no parameter list. It says what a compiled query is to mean.
pub mod Conjuncts
pub mod Segments
