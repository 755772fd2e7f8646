-- ===== src/Cli.antt =====
-- ag_src/options.c: the options of the command line and how `parse_options` reads and settles them.
-- `Entries` has the table of the long options, `Switch` the switch over the options, `Settle` what
-- follows the loop.
pub mod Entries
pub mod Switch
pub mod Output
pub mod Settle
pub mod Hangs
pub mod Settled
pub mod Ends
pub mod Piped
pub mod Kept
pub mod Read
use libag.Common.{
  ℕ, ◌+◌, ◌-◌, ◌%◌, ◌^◌, Bool, true, false, Option, none, some, List, [], ltb, if◌then◌else◌,
}
use libag.Common.Int.{ℤ, pos, negsuc}
use libag.Cstr.{Str}

-- `enum case_behavior`
pub data Casing : Type 0 where
  case_default case_sensitive case_insensitive case_smart : Casing

-- `enum path_print_behavior`
pub data PathPrint : Type 0 where
  print_default print_default_each_line print_top print_each_line print_nothing : PathPrint

-- The fields of `cli_options` that `parse_options` sets and that are no compiled expression; of those
-- it keeps the source, and whether it ignores case. An `int` that holds a truth value is a Boolean.
pub record CliOptions : Type 0 where
  pub ackmate : Bool
  pub ackmate_dir_filter : Option Str
  pub after : ℕ
  pub before : ℕ
  pub casing : Casing
  pub match_files : Bool
  pub file_search_regex : Option (Str × Bool)
  pub color : Bool
  pub color_line_number : Option Str
  pub color_match : Option Str
  pub color_path : Option Str
  pub color_win_ansi : Bool
  pub column : Bool
  pub context : ℤ
  pub follow_symlinks : Bool
  pub invert_match : Bool
  pub literal : Bool
  pub max_matches_per_file : ℕ
  pub max_search_depth : ℤ
  pub mmap : Bool
  pub multiline : Bool
  pub one_dev : Bool
  pub only_matching : Bool
  pub path_sep : ℕ
  pub path_to_ignore : Bool
  pub print_break : Bool
  pub print_count : Bool
  pub print_filename_only : Bool
  pub print_path : PathPrint
  pub print_all_paths : Bool
  pub print_line_numbers : ℕ
  pub print_long_lines : Bool
  pub passthrough : Bool
  pub recurse_dirs : Bool
  pub search_all_files : Bool
  pub skip_vcs_ignores : Bool
  pub search_binary_files : Bool
  pub search_zip_files : Bool
  pub search_hidden_files : Bool
  pub search_stream : Bool
  pub stats : Bool
  pub stdout_inode : ℕ
  pub query : Str
  pub pager : Option Str
  pub parallel : Bool
  pub use_thread_affinity : Bool
  pub vimgrep : Bool
  pub width : ℕ
  pub word_regexp : Bool
  pub workers : ℤ

-- `init_options`. A colour is `none` where it has its default.
unfoldable pub init_cli_options : CliOptions
init_cli_options = record {
  ackmate = false;
  ackmate_dir_filter = none;
  after = 0;
  before = 0;
  casing = case_default;
  match_files = false;
  file_search_regex = none;
  color = true;
  color_line_number = none;
  color_match = none;
  color_path = none;
  color_win_ansi = false;
  column = false;
  context = pos 0;
  follow_symlinks = false;
  invert_match = false;
  literal = false;
  max_matches_per_file = 0;
  max_search_depth = pos 25;
  mmap = true;
  multiline = true;
  one_dev = false;
  only_matching = false;
  path_sep = b'\n';
  path_to_ignore = false;
  print_break = true;
  print_count = false;
  print_filename_only = false;
  print_path = print_default;
  print_all_paths = false;
  print_line_numbers = 1;
  print_long_lines = false;
  passthrough = false;
  recurse_dirs = true;
  search_all_files = false;
  skip_vcs_ignores = false;
  search_binary_files = false;
  search_zip_files = false;
  search_hidden_files = false;
  search_stream = false;
  stats = false;
  stdout_inode = 0;
  query = [];
  pager = none;
  parallel = false;
  use_thread_affinity = true;
  vimgrep = false;
  width = 0;
  word_regexp = false;
  workers = pos 0;
}

-- What is read into the ignore lists, in order: a pattern or the patterns of a file.
pub data IgnoreSource : Type 0 where
  pattern : Str → IgnoreSource
  patterns_of : Str → IgnoreSource

-- `opts` with the variables of `parse_options`; `ext_index` has the `lang_num` languages asked for.
pub record Parser : Type 0 where
  pub opts : CliOptions
  pub group : Bool
  pub help : Bool
  pub version : Bool
  pub list_file_types : Bool
  pub accepts_query : Bool
  pub needs_query : Bool
  pub file_search_source : Option Str
  pub ext_index : List ℕ
  pub ignores : List IgnoreSource

-- How a part of `parse_options` ends: it goes on, the process exits with a status, it writes or reads
-- outside an object, or the given number of rounds was not enough.
pub data Parsing (A : Type 0) : Type 0 where
  going : A → Parsing A
  exited : ℕ → Parsing A
  faulty : Parsing A
  unfinished : Parsing A

-- A later part runs only if the process goes on.
infixl 5 ◌and_then◌
abbrev pub ◌and_then◌ : {A B : Type 0} → Parsing A → (A → Parsing B) → Parsing B
going a and_then f = f a
exited status and_then f = exited status
faulty and_then f = faulty
unfinished and_then f = unfinished

-- A `long` as a `size_t` and as an `int`.
unfoldable pub as_size : ℤ → ℕ
as_size (pos n) = n % 2 ^ 64
as_size (negsuc n) = 2 ^ 64 - 1 - n % 2 ^ 64

unfoldable pub as_int : ℤ → ℤ
as_int n =
    let low = as_size n % 2 ^ 32 in if ltb low (2 ^ 31) then pos low else negsuc (2 ^ 32 - 1 - low)
