-- ===== src/Search.antt =====
-- The search of files and directories, ag_src/search.c and ag_src/scandir.c.
pub mod Matches
pub mod Literal
pub mod Regex
pub mod Invert
pub mod Buffer
pub mod Symloop
pub mod Scandir
pub mod Walk
pub mod File
