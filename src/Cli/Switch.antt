-- ===== src/Cli/Switch.antt =====
-- The loop of `parse_options` in ag_src/options.c over the options. The parsing by `getopt_long` is
-- that of the C library: a function of the position, which is `optind` and the place in a cluster of
-- short options.
use libag.Common.{
  ℕ, zero, suc, ◌-◌, Bool, true, false, ◌||◌, Option, none, some, [], ◌∷◌, ◌++◌, length, ltb, ◌==◌,
  if◌then◌else◌,
}
use libag.Common.Int.{ℤ, pos}
use libag.Cstr.{Str}
use libag.Cli.{
  CliOptions, Parser, Parsing, going, exited, faulty, unfinished, pattern, patterns_of, as_size,
  as_int, case_sensitive, case_insensitive, case_smart, print_default, print_top, print_nothing,
}
use libag.Cli.Entries.{
  LongOption, Entry, NamedOption, sets_opts, sets_group, lists_file_types, asks_version,
  sets_useless, short_for, by_name, base_longopts, named_ackmate_dir_filter,
  named_color_line_number, named_color_match, named_color_path, named_depth, named_filename,
  named_ignore, named_ignore_dir, named_no_filename, named_nofilename, named_no_pager,
  named_nopager, named_pager, named_print_all_files, named_silent, named_stats_only, named_workers,
}

-- An option that `getopt_long` finds: a character of the short options, a long option, or a file type
-- by its index in `langs`, with `optarg`.
pub data Arg : Type 0 where
  short : ℕ → Option Str → Arg
  long : LongOption → Option Str → Arg
  file_type : ℕ → Arg

-- `strtol` on a whole string, `none` where the code finds no number or one out of range; `atoi`; and
-- whether `compile_study`, which else ends the process, can compile an expression.
pub record Libc : Type 0 where
  pub strtol : Str → Option ℤ
  pub atoi : Str → ℤ
  pub compiles : Str → Bool

-- The parser behind an option, and whether `optind` has gone back by one.
abbrev pub Switched : Type 0
Switched = Parsing (Parser × Bool)

unfoldable pub with_opts : (CliOptions → CliOptions) → Parser → Parser
with_opts change p = record p { opts = change p.opts }

unfoldable pub set_opts : (CliOptions → CliOptions) → Parser → Switched
set_opts change p = going (with_opts change p, false)

-- `optarg` of an option that requires one.
unfoldable pub required : Option Str → Str
required none = []
required (some s) = s

-- The length of a context: without a number the default, and the argument "must be the search string".
unfoldable pub context_len : Libc → Option Str → ℤ × Bool
context_len libc none = (pos 2, false)
context_len libc (some optarg) = elim (libc.strtol optarg) as (λ _. ℤ × Bool) [
  | none ↦ (pos 2, true)
  | some n ↦ (n, false)
]

unfoldable pub is_given : Option Str → Bool
is_given none = false
is_given (some s) = true

-- `case 'g'` falls through to `case 'G'`.
unfoldable pub set_file_search : Option Str → Parser → Switched
set_file_search optarg p =
    if is_given p.file_search_source
    then exited 1
    else going (record p { file_search_source = some (required optarg) }, false)

-- The cases with an argument.
unfoldable pub switch_argument : Libc → ℕ → Option Str → Parser → Switched
switch_argument libc ch optarg p =
    let (len, back) = context_len libc optarg in
    if ch == b'A'
    then going (with_opts (λ o. record o { after = as_size len }) p, back)
    else if ch == b'B'
    then going (with_opts (λ o. record o { before = as_size len }) p, back)
    else if ch == b'C'
    then going (with_opts (λ o. record o { context = as_int len }) p, back)
    else if ch == b'g'
    then set_file_search optarg (
        with_opts (λ o. record o { match_files = true })
          (record p { needs_query = false; accepts_query = false }))
    else if ch == b'G'
    then set_file_search optarg p
    else if ch == b'm'
    then set_opts (λ o. record o { max_matches_per_file = as_size (libc.atoi (required optarg)) }) p
    else if ch == b'p'
    then going (
      with_opts (λ o. record o { path_to_ignore = true })
          (record p { ignores = p.ignores ++ (patterns_of (required optarg) ∷ []) }),
      false,
    )
    else if ch == b'W'
    then elim (libc.strtol (required optarg)) as (λ _. Switched) [
      | none ↦ exited 2
      | some n ↦ set_opts (λ o. record o { width = as_size n }) p
    ]
    else exited 1

-- The cases that only set fields of `opts`; `none` is no such case. 'D' sets the level of the log.
unfoldable pub short_setting : ℕ → Option (CliOptions → CliOptions)
short_setting ch =
    if ch == b'a'
    then some (λ o. record o { search_all_files = true; search_binary_files = true })
    else if ch == b'c'
    then some (λ o. record o { print_count = true; print_filename_only = true })
    else if ch == b'D'
    then some (λ o. o)
    else if ch == b'f'
    then some (λ o. record o { follow_symlinks = true })
    else if ch == b'H'
    then some (λ o. record o { print_path = print_top })
    else if ch == b'i'
    then some (λ o. record o { casing = case_insensitive })
    else if ch == b'n'
    then some (λ o. record o { recurse_dirs = false })
    else if ch == b'o'
    then some (λ o. record o { only_matching = true })
    else if ch == b'F' || ch == b'Q'
    then some (λ o. record o { literal = true })
    else if ch == b'R' || ch == b'r'
    then some (λ o. record o { recurse_dirs = true })
    else if ch == b'S'
    then some (λ o. record o { casing = case_smart })
    else if ch == b's'
    then some (λ o. record o { casing = case_sensitive })
    else if ch == b't'
    then some (λ o. record o { search_all_files = true })
    else if ch == b'u'
    then some (λ o. record o {
      search_binary_files = true;
      search_all_files = true;
      search_hidden_files = true;
    })
    else if ch == b'U'
    then some (λ o. record o { skip_vcs_ignores = true })
    else if ch == b'v'
    then some (λ o. record o { invert_match = true; color = false })
    else if ch == b'w'
    then some (λ o. record o { word_regexp = true })
    else if ch == b'z'
    then some (λ o. record o { search_zip_files = true })
    else if ch == b'0'
    then some (λ o. record o { path_sep = 0 })
    else none

-- The cases with local variables; `case 'L'` falls through to `case 'l'`.
unfoldable pub switch_local : Libc → ℕ → Option Str → Parser → Switched
switch_local libc ch optarg p =
    if ch == b'h'
    then going (record p { help = true }, false)
    else if ch == b'V'
    then going (record p { version = true }, false)
    else if ch == b'L'
    then set_opts
        (λ o. record o { invert_match = true; print_filename_only = true; print_path = print_top })
        (record p { needs_query = false })
    else if ch == b'l'
    then set_opts (λ o. record o { print_filename_only = true; print_path = print_top })
        (record p { needs_query = false })
    else switch_argument libc ch optarg p

unfoldable pub switch_short : Libc → ℕ → Option Str → Parser → Switched
switch_short libc ch optarg p = elim (short_setting ch) as (λ _. Switched) [
  | some change ↦ set_opts change p
  | none ↦ switch_local libc ch optarg p
]

-- "\033[%sm"
unfoldable pub colour : Option Str → Option Str
colour optarg = some (0x1b ∷ b'[' ∷ (required optarg ++ (b'm' ∷ [])))

-- `case 0`, for an entry without a variable. "silent" sets the level of the log.
unfoldable pub switch_named : Libc → NamedOption → Option Str → Parser → Switched
switch_named libc named_ackmate_dir_filter optarg = λ p.
    if libc.compiles (required optarg)
    then set_opts (λ o. record o { ackmate_dir_filter = some (required optarg) }) p
    else exited 2
switch_named libc named_depth optarg =
    set_opts (λ o. record o { max_search_depth = libc.atoi (required optarg) })
switch_named libc named_filename optarg =
    set_opts (λ o. record o { print_path = print_default; print_line_numbers = 1 })
switch_named libc named_ignore_dir optarg =
    λ p. going (record p { ignores = p.ignores ++ (pattern (required optarg) ∷ []) }, false)
switch_named libc named_ignore optarg =
    λ p. going (record p { ignores = p.ignores ++ (pattern (required optarg) ∷ []) }, false)
switch_named libc named_no_filename optarg =
    set_opts (λ o. record o { print_path = print_nothing; print_line_numbers = 0 })
switch_named libc named_nofilename optarg =
    set_opts (λ o. record o { print_path = print_nothing; print_line_numbers = 0 })
switch_named libc named_no_pager optarg = set_opts (λ o. record o { pager = none })
switch_named libc named_nopager optarg = set_opts (λ o. record o { pager = none })
switch_named libc named_pager optarg = set_opts (λ o. record o { pager = optarg })
switch_named libc named_print_all_files optarg = set_opts (λ o. record o { print_all_paths = true })
switch_named libc named_workers optarg =
    set_opts (λ o. record o { workers = libc.atoi (required optarg) })
switch_named libc named_color_line_number optarg =
    set_opts (λ o. record o { color_line_number = colour optarg })
switch_named libc named_color_match optarg =
    set_opts (λ o. record o { color_match = colour optarg })
switch_named libc named_color_path optarg = set_opts (λ o. record o { color_path = colour optarg })
switch_named libc named_silent optarg = set_opts (λ o. o)
switch_named libc named_stats_only optarg =
    set_opts
      (λ o. record o { print_filename_only = true; print_path = print_nothing; stats = true })

-- `getopt_long` sets the variable of an entry, or returns its short option, or 0.
unfoldable pub switch_entry : Libc → Entry → Option Str → Parser → Switched
switch_entry libc (sets_opts change) optarg p = set_opts change p
switch_entry libc (sets_group group) optarg p = going (record p { group = group }, false)
switch_entry libc lists_file_types optarg p = going (record p { list_file_types = true }, false)
switch_entry libc asks_version optarg p = going (record p { version = true }, false)
switch_entry libc sets_useless optarg p = going (p, false)
switch_entry libc (short_for ch) optarg p = switch_short libc ch optarg p
switch_entry libc (by_name named) optarg p = switch_named libc named optarg p

unfoldable pub switch_long : Libc → LongOption → Option Str → Parser → Switched
switch_long libc name optarg p = switch_entry libc (base_longopts name) optarg p

-- A file type is stored in `ext_index`, which has room for each language once.
unfoldable pub switch_file_type : ℕ → ℕ → Parser → Switched
switch_file_type lang_count i p =
    if ltb (length p.ext_index) lang_count
    then going (record p { ext_index = p.ext_index ++ (i ∷ []) }, false)
    else faulty

unfoldable pub switch : Libc → ℕ → Arg → Parser → Switched
switch libc lang_count (short ch optarg) p = switch_short libc ch optarg p
switch libc lang_count (long name optarg) p = switch_long libc name optarg p
switch libc lang_count (file_type i) p = switch_file_type lang_count i p

-- `optind` and the place in a cluster.
abbrev pub Position : Type 0
Position = ℕ × ℕ

abbrev pub Getopt : Type 0
Getopt = Position → Option (Arg × Position)

unfoldable pub step_back : Bool → Position → Position
step_back back at = if back then (at.0 - 1, at.1) else at

-- The end of a case of the switch; `next` is the next round of the loop.
unfoldable pub switched :
    (Position → Parser → Parsing (Parser × ℕ)) → Position → Switched → Parsing (Parser × ℕ)
switched next at (going (p, back)) = next (step_back back at) p
switched next at (exited status) = exited status
switched next at faulty = faulty
switched next at unfinished = unfinished

module _ (libc : Libc) (lang_count : ℕ) (getopt_long : Getopt) where
  -- A round, on what `getopt_long` returns. The loop ends with `optind`.
  unfoldable pub parse_round :
      (Position → Parser → Parsing (Parser × ℕ))
      → Position
      → Parser
      → Option (Arg × Position)
      → Parsing (Parser × ℕ)
  parse_round next at p none = going (p, at.0)
  parse_round next at p (some (arg, behind)) = switched next behind (switch libc lang_count arg p)

  unfoldable pub parse_loop : ℕ → Position → Parser → Parsing (Parser × ℕ)
  parse_loop zero = λ at p. unfinished
  parse_loop (suc fuel) = λ at p. parse_round (parse_loop fuel) at p (getopt_long at)
