-- ===== src/Util.antt =====
-- Helpers of ag_src/util.c, one module for each family of functions.
pub mod BinarySearch
pub mod Chars
pub mod Literal
pub mod Hash
pub mod BoyerMoore
pub mod Binary
pub mod Entry
