-- ===== src/Cli/Hangs.antt =====
-- Where the loop of `parse_options` in ag_src/options.c does not end, and where it writes outside
-- `ext_index`.
use libag.Common.{
  ℕ, zero, suc, ◌-◌, ◌≡◌, ◌≤◌, Bool, true, false, Option, none, some, length, refl, ap, ◌∙◌, arith,
  ltb_of_le,
}
use libag.Cstr.{Str}
use libag.Cli.{Parser, going, unfinished, faulty, as_size}
use libag.Common.Int.{ℤ, pos}
use libag.Cli.Switch.{
  Libc, short, Getopt, parse_round, switched, with_opts, parse_loop, switch, switch_short,
  short_setting, switch_local, switch_argument, switch_file_type, context_len, step_back,
}

-- The option -A with what is no number: the default, and `optind` goes back.
switch-context :
    (libc : Libc) (lang_count : ℕ) (arg : Str) (p : Parser)
    → libc.strtol arg ≡ none
    → switch libc lang_count (short b'A' (some arg)) p
      ≡ going (with_opts (λ o. record o { after = 2 }) p, true)
unfolding switch switch_short short_setting switch_local switch_argument context_len as_size
switch-context libc lang_count arg p no_number =
    ap
      (λ n.
        going (with_opts (λ o. record o { after = as_size (length_of n).0 }) p, (length_of n).1))
      no_number
  where
    length_of : Option ℤ → ℤ × Bool
    length_of none = (pos 2, true)
    length_of (some n) = (n, false)

-- Where `getopt_long` finds, in the argument at `optind`, an option -A with a length that is no number,
-- and goes on behind that argument, the loop never ends: it goes back to the same argument.
pub parse_loop-unfinished :
    (libc : Libc) (lang_count : ℕ) (getopt_long : Getopt) (arg : Str) (optind place : ℕ)
    → getopt_long (optind, place) ≡ some (short b'A' (some arg), (suc optind, place))
    → libc.strtol arg ≡ none
    → (fuel : ℕ) (p : Parser)
    → parse_loop libc lang_count getopt_long fuel (optind, place) p ≡ unfinished
unfolding parse_loop parse_round switched step_back
parse_loop-unfinished libc lang_count getopt_long arg optind place found no_number zero p = refl
parse_loop-unfinished libc lang_count getopt_long arg optind place found no_number (suc fuel) p =
    let next = parse_loop libc lang_count getopt_long fuel in
    ap (parse_round libc lang_count getopt_long next (optind, place) p) found
    ∙ ap (switched next (suc optind, place)) (switch-context libc lang_count arg p no_number)
    ∙ ap (λ k. next (k, place) (with_opts (λ o. record o { after = 2 }) p)) {x = suc optind - 1}
        (omega arith)
    ∙ parse_loop-unfinished libc lang_count getopt_long arg optind place found no_number fuel
        (with_opts (λ o. record o { after = 2 }) p)

-- One file type more than there are languages is stored behind the end of `ext_index`.
pub switch_file_type-faulty :
    (lang_count i : ℕ) (p : Parser)
    → lang_count ≤ length p.ext_index
    → switch_file_type lang_count i p ≡ faulty
unfolding switch_file_type
switch_file_type-faulty lang_count i p full =
    rw (ltb_of_le (length p.ext_index) lang_count full) refl
