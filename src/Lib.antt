-- ===== src/Lib.antt =====
-- Verification of libag, The Silver Searcher as a library (libag.c, libag.h and ag_src/).
--
-- The program: a caller configures the library and starts its threads, then asks for the
-- occurrences of a query below some paths. A walk over the directories filters their entries by
-- patterns of ignore files and queues the files; the threads read or map each file, decode it if it
-- is compressed, test it for text, search it and put the matches into lists, one for each thread,
-- which are joined for the caller. The command line program reads options, searches in the same way
-- and prints the lines with matches.
--
-- The parts and their files:
--   Common        numbers, lists as C arrays, and outcomes: `Run` is a result, a read or write
--                 out of bounds, or a loop that needs more rounds than its fuel
--   Cstr          C strings and the functions of <string.h> and <ctype.h>
--   Util          ag_src/util.c: Hash and Literal for generate_hash and hash_strnstr, BoyerMoore
--                 for boyer_moore_strnstr and its tables, BinarySearch for binary_search, Binary
--                 for is_binary, Chars for is_regex, is_fnmatch, is_lowercase and is_wordchar,
--                 Entry for is_directory, is_symlink and is_named_pipe
--   Ignore        ag_src/ignore.c: Defs for struct ignores and init_ignore, Pattern for
--                 add_ignore_pattern, Search for path_ignore_search, Filter for filename_filter,
--                 Load for load_ignore_patterns
--   Libag         libag.c: Results for add_local_result, get_thrd_results and
--                 reset_local_results, Session for the configuration, the threads' life and
--                 the state that one ag_search leaves for the next,
--                 WorkQueue for the threads between start and join, with search_file_worker,
--                 Paths for prepare_paths, and Session/Threadsafe for ag_search_ts and
--                 ag_get_stats
--   Search        ag_src/search.c and ag_src/scandir.c: Matches, Literal, Regex, Invert and Buffer
--                 for search_buf with its matchers, Symloop, Scandir and Walk for search_dir, File
--                 for search_file and search_stream
--   Lang          ag_src/lang.c: make_lang_regex and combine_file_extensions
--   Decompress    ag_src/decompress.c: is_zipped, Whole for decompress, and Zfile with Seek for the
--                 stream of ag_src/zfile.c
--   Cli           ag_src/options.c: Entries for the table of the long options, Switch for the loop
--                 of parse_options, Settle and Output for what follows it
--   Print         ag_src/print.c: Context for the lines around a match, Line for a line with
--                 matches, File for print_file_matches
--   Tests         runs on small inputs
--
-- How state is modelled: the library's globals are the record `Session`, a node of patterns is
-- `Ignores` with its ancestors as a list (`Chain`), and the results of a thread are `ThrdResult`.
-- An operation takes the state and returns the next one. A pointer that may dangle has the state
-- `Owned` or `Workers`, and its use after a release is `fault`.
--
-- Numbers: `size_t` is ℕ; where a difference wraps, as in the last byte of a match, the wrap is
-- written out (`sub_size`), as that of the number of cells for the context lines. A byte is a number
-- below 256; where the code compares it as a signed char with an int, `same_char` says so. Not cut
-- are the sum in boyer_moore_strnstr, which wraps for no table that the code fills, the `int` capacity
-- of make_lang_regex, and the cells of 20 bytes of combine_file_extensions; an allocation has no
-- upper bound of its own. The cells of the table of generate_hash are bytes, cut by `% 256`.
--
-- A call that may end the process has an outcome of its own (`Outcome` in Decompress, `Parsing` in
-- Cli). An `int` or `long` of the options that may be negative is ℤ, cut by `as_size` and `as_int`.
-- The output of print.c is the list of the bytes that it writes.
--
-- Fuel: find_free and probe go round a table of 65536 cells, so that many rounds see every cell;
-- step_through and check_tail move by at least one byte, so the length of the text and one more is
-- enough, also in literal_loop and multiline_loop; search_dir has a round for each level up to
-- the limit of the depth; binary_search has one round more than the range has elements. The
-- theorems on these functions state that they return, so the fuel is enough. zfile_read needs no
-- more rounds than the decoder needs calls, and one; read_loop one more than the file has parts;
-- the loops of print.c run over a line or a file, whose length is their fuel. parse_loop has a round
-- for each option, but there are arguments for which no number is enough. The decoders of a whole
-- buffer go on for as long as the decoding library says so.
--
-- Parameters: `fnmatch` is the C library's, with FNM_PATHNAME; `pcre_exec`; getopt_long, strtol,
-- atoi and whether an expression compiles (`Getopt`, `Libc`); zlib and liblzma (`Codec`), which are
-- both built in; the outcome of an allocation or of a call of the system (`Memory`, `Machine`,
-- `OpenFile`, `Around`, the fields `stat` and `lstat` of `Dirent`); the file system (`FileSystem`);
-- what search_file adds to a slot, in WorkQueue, and the outcome of the search itself, in Session.
--
-- The threads: a worker that waits for `files_ready` is `asleep` and has no step until a `Signal` or a
-- broadcast (`woken`); that a thread may wake for no reason is left out. Between ag_init and ag_finish
-- one thread calls the library: the mutex of ag_search_ts has a life, but keeps nothing apart. Of
-- setup_search Session has what it does to the options; a query
-- for which generate_alpha_skip, generate_hash or compile_study does not come back has no search
-- there.
--
-- Not modelled: uthash.h, a copy of a library; bindings/ and examples/; main.c, which joins parts
-- that are modelled; log.c, usage and print_version, which only write texts; print_w32.c, a port of
-- the console of Windows; ag_free_result, ag_free_all_results and zfile_close, which only release;
-- the table of languages of lang.c, which is data.
pub mod Common
pub mod Cstr
pub mod Util
pub mod Ignore
pub mod Libag
pub mod Search
pub mod Lang
pub mod Decompress
pub mod Cli
pub mod Print
pub mod Tests
