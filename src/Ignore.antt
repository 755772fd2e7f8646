-- ===== src/Ignore.antt =====
-- The ignore patterns of ag_src/ignore.c: `struct ignores` and the functions that build one.
pub mod Pattern
pub mod Defs
pub mod Search
pub mod Filter
pub mod Load
