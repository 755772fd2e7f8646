-- ===== src/Cli/Settle.antt =====
-- `parse_options` of ag_src/options.c: what comes before the loop over the options and behind it.
use libag.Common.{
  ℕ, Bool, true, false, not, ◌&&◌, ◌||◌, Option, none, some, List, [], ◌∷◌, ◌++◌, map, length, ltb,
  ◌==◌, if◌then◌else◌, Run, done, fault, looping,
}
use libag.Cstr.{Str}
use libag.Util.Chars.{is_regex, is_lowercase}
use libag.Ignore.Load.{c_string}
use libag.Lang.{make_lang_regex, combine_file_extensions}
use libag.Libag.Paths.{Target, kill_slash, base_of}
use libag.Cli.{
  CliOptions, Parser, Parsing, going, exited, faulty, unfinished, IgnoreSource, patterns_of, Casing,
  case_default, case_sensitive, case_insensitive, case_smart, ◌and_then◌, init_cli_options,
}
use libag.Cli.Switch.{Libc, Getopt, parse_loop, with_opts}
use libag.Cli.Output.{settle_output}

-- What the process finds around it: `argc`, the standard streams (`none` is a failed `fstat`), the
-- environment, the output of git (`none` is a failed `popen`), the pager, and the arguments from an
-- index on, as `getopt_long` leaves them.
pub record Around : Type 0 where
  pub argc : ℕ
  pub stdin_is_file : Bool
  pub stdout_is_tty : Bool
  pub stdout_inode : Option ℕ
  pub home_dir : Option Str
  pub config_home : Option Str
  pub git_output : Option (List ℕ)
  pub runs_pager : Str → Bool
  pub argv_from : ℕ → List Str
  pub realpath : Str → Option Str
  pub lang_extensions : ℕ → List Str
  pub lang_count : ℕ

-- The settled options, the paths with their bases, and what was read into the ignore lists.
pub record Settled : Type 0 where
  pub opts : CliOptions
  pub targets : List Target
  pub ignores : List IgnoreSource

abbrev pub fresh_parser : Parser
fresh_parser = record {
  opts = init_cli_options;
  group = true;
  help = false;
  version = false;
  list_file_types = false;
  accepts_query = true;
  needs_query = true;
  file_search_source = none;
  ext_index = [];
  ignores = [];
}

-- Where the output is not a terminal.
unfoldable pub redirected : Option ℕ → Parser → Parsing Parser
redirected none p = exited 2
redirected (some inode) p =
    going (
      with_opts (λ o. record o { color = false; stdout_inode = inode })
        (record p { group = false }))

-- The tests of the standard streams.
unfoldable pub look_around : Around → Parsing Parser
look_around around =
    let streamed =
      with_opts (λ o. record o { search_stream = around.stdin_is_file }) fresh_parser in
    if ltb around.argc 2
    then exited 1
    else if around.stdout_is_tty
    then going streamed
    else redirected around.stdout_inode streamed

unfoldable pub settle_casing : CliOptions → CliOptions
settle_casing o = elim (o.casing) as (λ _. CliOptions) [
  | case_default ↦ record o { casing = case_smart }
  | case_sensitive ↦ o
  | case_insensitive ↦ o
  | case_smart ↦ o
]

unfoldable pub is_caseless : Casing → Str → Bool
is_caseless case_insensitive s = true
is_caseless case_smart s = is_lowercase s
is_caseless case_default s = false
is_caseless case_sensitive s = false

-- "\\b%s\\b"
unfoldable pub as_word : Bool → Str → Str
as_word word_regexp s = if word_regexp then 0x5c ∷ b'b' ∷ (s ++ (0x5c ∷ b'b' ∷ [])) else s

-- `compile_study` of the expression that names of files have to match.
unfoldable pub compile_regex : Libc → Str → Bool → Parser → Parsing Parser
compile_regex libc regex caseless p =
    if libc.compiles regex
    then going (with_opts (λ o. record o { file_search_regex = some (regex, caseless) }) p)
    else exited 2

-- The regular expression of -g or -G.
unfoldable pub compile_file_search : Libc → Parser → Parsing Parser
compile_file_search libc p = elim (p.file_search_source) as (λ _. Parsing Parser) [
  | none ↦ going p
  | some s ↦ compile_regex libc (as_word p.opts.word_regexp s) (is_caseless p.opts.casing s) p
]

-- A buffer of the expression of a file type.
unfoldable pub of_run : {A : Type 0} → Run A → Parsing A
of_run (done a) = going a
of_run fault = faulty
of_run looping = unfinished

-- The regular expression of the file types, which takes the place of that of -g or -G.
unfoldable pub compile_types : Libc → Around → Parser → Parsing Parser
compile_types libc around p =
    if length p.ext_index == 0
    then going p
    else of_run (combine_file_extensions (map around.lang_extensions p.ext_index) [])
      and_then (λ extensions.
          of_run (make_lang_regex extensions) and_then (λ regex. compile_regex libc regex false p))

unfoldable pub is_empty : List Str → Bool
is_empty [] = true
is_empty (arg ∷ args) = false

-- `popen` of the pager.
unfoldable pub pager_fails : Around → Option Str → Bool
pager_fails around none = false
pager_fails around (some pager) = not (around.runs_pager pager)

-- The exits between the loop and the ignore files: the pager, --help, --version, --list-file-types, and
-- no query.
unfoldable pub early_exits : Around → List Str → Parser → Parsing Parser
early_exits around argv p =
    if pager_fails around p.opts.pager
    then exited 1
    else if p.help || (p.version || p.list_file_types)
    then exited 0
    else if p.needs_query && is_empty argv
    then exited 1
    else going p

abbrev agignore : Str
agignore = b'/' ∷ b'.' ∷ b'a' ∷ b'g' ∷ b'i' ∷ b'g' ∷ b'n' ∷ b'o' ∷ b'r' ∷ b'e' ∷ []

abbrev git_ignore : Str
git_ignore = b'/' ∷ b'g' ∷ b'i' ∷ b't' ∷ b'/' ∷ b'i' ∷ b'g' ∷ b'n' ∷ b'o' ∷ b'r' ∷ b'e' ∷ []

abbrev dot_config : Str
dot_config = b'/' ∷ b'.' ∷ b'c' ∷ b'o' ∷ b'n' ∷ b'f' ∷ b'i' ∷ b'g' ∷ []

unfoldable pub home_ignores : Option Str → Parser → Parser
home_ignores none p = p
home_ignores (some home) p =
    if p.opts.search_all_files
    then p
    else record p { ignores = p.ignores ++ (patterns_of (home ++ agignore) ∷ []) }

-- The default of git's `core.excludesfile`. Without HOME it is printed from NULL.
unfoldable pub default_excludes : Option Str → Option Str → Parsing Str
default_excludes (some config_home) home_dir = going (config_home ++ git_ignore)
default_excludes none (some home) = going (home ++ (dot_config ++ git_ignore))
default_excludes none none = faulty

-- What git prints up to a NUL, or the default where it prints nothing.
unfoldable pub excludes_file : Around → List ℕ → Parsing Str
excludes_file around [] = default_excludes around.config_home around.home_dir
excludes_file around (c ∷ output) = going (c_string (c ∷ output))

unfoldable pub ask_git : Around → Parser → Option (List ℕ) → Parsing Parser
ask_git around p none = going p
ask_git around p (some output) =
    excludes_file around output
    and_then (λ file. going (record p { ignores = p.ignores ++ (patterns_of file ∷ []) }))

unfoldable pub git_ignores : Around → Parser → Parsing Parser
git_ignores around p =
    if p.opts.skip_vcs_ignores then going p else ask_git around p around.git_output

-- The query and the arguments behind it; `none` is `strlen` of NULL.
unfoldable pub take_query : Parser → List Str → Option (Str × List Str)
take_query p [] = if p.needs_query then none else some (b'.' ∷ [], [])
take_query p (arg ∷ args) =
    if p.accepts_query
    then some (if not p.needs_query && length arg == 0 then b'.' ∷ [] else arg, args)
    else if p.needs_query
    then none
    else some (b'.' ∷ [], arg ∷ args)

-- The paths. Without one it is ".", whose base gets no slash.
unfoldable pub take_paths : Around → List Str → List Target
take_paths around [] = ((b'.' ∷ []), around.realpath (b'.' ∷ [])) ∷ []
take_paths around (arg ∷ args) =
    map (λ path. (kill_slash path, base_of around.realpath (kill_slash path))) (arg ∷ args)

unfoldable pub with_query : Around → Parser → CliOptions → Option (Str × List Str) → Parsing Settled
with_query around p o none = faulty
with_query around p o (some (query, args)) =
    if length query == 0
    then exited 1
    else going (record {
      opts = record o {
        query = query;
        literal = if is_regex query then o.literal else true;
        search_stream = is_empty args && o.search_stream;
      };
      targets = take_paths around args;
      ignores = p.ignores;
    })

unfoldable pub settle_query : Around → Parser → List Str → CliOptions → Parsing Settled
settle_query around p argv o = with_query around p o (take_query p argv)

-- What follows the loop; `argv` is what is left of the arguments.
unfoldable pub settle : Libc → Around → List Str → Parser → Parsing Settled
settle libc around argv p =
    compile_file_search libc (with_opts settle_casing p)
    and_then (compile_types libc around)
    and_then (early_exits around argv)
    and_then (λ q. git_ignores around (home_ignores around.home_dir q))
    and_then (λ q. settle_query around q argv (settle_output q))

unfoldable pub parse_options : Libc → Around → Getopt → ℕ → Parsing Settled
parse_options libc around getopt_long fuel =
    look_around around
    and_then (parse_loop libc around.lang_count getopt_long fuel (1, 0))
    and_then (λ r. settle libc around (around.argv_from r.1) r.0)
