-- ===== src/Libag.antt =====
-- The library's own layer, libag.c.
pub mod Results
pub mod Session
pub mod WorkQueue
pub mod Paths
