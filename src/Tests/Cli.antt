-- ===== src/Tests/Cli.antt =====
-- Runs of the model of the command line.
use libag.Common.{
  suc, ◌≡◌, refl, ap, sym, subst, ◌-◌, true, false, none, some, [], ◌∷◌, ◌==◌, if◌then◌else◌, arith,
}
use libag.Common.Int.{pos}
use libag.Cstr.{Str}
use libag.Cli
use libag.Cli.{
  Parser, Parsing, going, exited, unfinished, print_nothing, init_cli_options, print_top,
  case_insensitive,
}
use libag.Cli.Entries.{opt_heading, base_longopts}
use libag.Cli.Switch
use libag.Cli.Switch.{
  Position, Libc, Arg, short, long, file_type, Getopt, with_opts, parse_loop, switch,
}
use libag.Cli.Settle.{parse_options, Around, fresh_parser, settle_query, parse_options}
use libag.Cli.Output.{settle_output}
use libag.Cli.Settled.{Ends}
use libag.Cli.Kept.{HasNumber}
use libag.Cli.Read.{types_in, IsRead}
use libag.Cli.Hangs.{parse_loop-unfinished}
use libag.Cli.Piped.{IsPiped, SearchesPaths, settle_query-piped}

program : Unit {0}
unfolding init_cli_options base_longopts Switch.set_opts Switch.with_opts Switch.required
    Switch.context_len Switch.is_given Switch.set_file_search Switch.switch_argument
    Switch.short_setting Switch.switch_local Switch.switch_short Switch.switch_entry
    Switch.switch_long Switch.switch Switch.step_back Switch.switched Switch.parse_round
    Switch.parse_loop Cli.as_size Cli.as_int
program = tt

-- No number is understood, and every expression compiles.
abbrev libc : Libc
libc = record { strtol = λ s. none; atoi = λ s. pos 0; compiles = λ s. true }

abbrev home : Str
home = b'/' ∷ b'h' ∷ []

-- "foo" in the current folder, on a terminal.
abbrev foo : Str
foo = b'f' ∷ b'o' ∷ b'o' ∷ []

abbrev around : Around
around = record {
  argc = 2;
  stdin_is_file = false;
  stdout_is_tty = true;
  stdout_inode = none;
  home_dir = some home;
  config_home = none;
  git_output = none;
  runs_pager = λ s. true;
  argv_from = λ i. foo ∷ [];
  realpath = λ path. none;
  lang_extensions = λ i. (b'c' ∷ []) ∷ [];
  lang_count = 1;
}

-- -i --heading, the end of the options.
abbrev two_options : Getopt
two_options (optind, place) =
    if optind == 1
    then some (short b'i' none, (2, 0))
    else if optind == 2
    then some (long opt_heading none, (3, 0))
    else none

parsed :
    parse_loop libc 1 two_options 3 (1, 0) fresh_parser
    ≡ going (
      with_opts (λ o. record o { casing = case_insensitive; print_path = print_top }) fresh_parser,
      3,
    )
unfolding program
parsed = refl

-- -i
abbrev one_option : Getopt
one_option (optind, place) = if optind == 1 then some (short b'i' none, (2, 0)) else none

abbrev OneStep : Position → Arg → Position → Type 0
OneStep at arg behind = (at.0 ≡ 1) × (arg ≡ short b'i' none) × (behind.0 ≡ 2)

one_option-step :
    (at : Position) (arg : Arg) (behind : Position)
    → one_option at ≡ some (arg, behind)
    → OneStep at arg behind
one_option-step (optind, place) arg behind e =
    (ground (arith, e), ground (arith, e), ground (arith, e))

abbrev one_option-IsRead : IsRead libc one_option
one_option-IsRead = record {
  options_left = λ at. 2 - at.0;
  types_left = λ at. 0;
  fewer_options =
      λ at arg behind e. let h = one_option-step at arg behind e in omega (arith, h.0, h.2);
  fewer_types = λ at arg behind e.
      let h : types_in arg ≡ 0 = ap types_in (one_option-step at arg behind e).1 in
      omega (arith, h);
  numbers = λ at arg behind e.
      subst (HasNumber libc) (sym (one_option-step at arg behind e).1) (λ f. ground (arith, f));
}

abbrev piped_parser : Parser
piped_parser = record fresh_parser {
  opts = record init_cli_options { search_stream = true; print_path = print_top };
}

piped_parser-IsPiped : IsPiped piped_parser.opts
unfolding program
piped_parser-IsPiped = (refl, refl, refl, refl)

settle_query-piped_example :
    SearchesPaths around piped_parser foo home [] piped_parser-IsPiped
      (omega arith)
      (settle_query around piped_parser (foo ∷ home ∷ []) (settle_output piped_parser))
settle_query-piped_example =
    settle_query-piped around piped_parser foo home [] piped_parser-IsPiped (omega arith) refl

-- -Afoo, again and again
abbrev attached : Getopt
attached (optind, place) = some (short b'A' (some foo), (suc optind, place))

parse_loop-unfinished_example : parse_loop libc 1 attached 100 (1, 0) fresh_parser ≡ unfinished
parse_loop-unfinished_example =
    parse_loop-unfinished libc 1 attached foo 1 0 refl refl 100 fresh_parser
