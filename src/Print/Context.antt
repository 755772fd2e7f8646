-- ===== src/Print/Context.antt =====
-- The context lines of ag_src/print.c, `struct print_context`.
use libag.Common.{
  ℕ, zero, suc, ◌+◌, ◌-◌, ◌%◌, ◌^◌, Bool, false, not, ◌&&◌, ◌||◌, Option, none, some, List, [], ◌∷◌,
  ◌++◌, set, replicate, ltb, leb, ◌==◌, if◌then◌else◌, get_elem?, length, Run, done, fault, ◌>>=◌,
}
use libag.Cstr.{Str}
use libag.Libag.Results.{sub_size}
use libag.Ignore.Load.{c_string}
use libag.Cli.{PathPrint, print_each_line}
use libag.Print.{PrintOptions, is_path, print_path, print_line_number}

-- `print_context` where it is set up; `prev_line`, which only the printing of the lines uses, is a
-- local variable there.
pub record Context : Type 0 where
  pub line : ℕ
  pub context_prev_lines : List (Option Str)
  pub last_prev_line : ℕ
  pub prev_line_offset : ℕ
  pub line_preceding_current_match_offset : ℕ
  pub lines_since_last_match : ℕ
  pub last_printed_match : ℕ
  pub in_a_match : Bool
  pub printing_a_match : Bool

abbrev pub int_max : ℕ
int_max = 2 ^ 31 - 1

-- `none` is a context that is not set up; one that is stays. The number of cells is a `size_t`, which
-- wraps.
unfoldable pub print_init_context : ℕ → Option Context → Context
print_init_context before (some c) = c
print_init_context before none = record {
  line = 1;
  context_prev_lines = replicate ((before + 1) % 2 ^ 64) none;
  last_prev_line = 0;
  prev_line_offset = 0;
  line_preceding_current_match_offset = 0;
  lines_since_last_match = int_max;
  last_printed_match = 0;
  in_a_match = false;
  printing_a_match = false;
}

unfoldable pub print_cleanup_context : Option Context → Option Context
print_cleanup_context c = none

-- The line is copied without its end, to a cell that must lie in the array.
unfoldable pub print_context_append : ℕ → Str → Context → Run Context
print_context_append before line c =
    let appended = record c {
      context_prev_lines = set c.context_prev_lines c.last_prev_line (some line);
      last_prev_line = (c.last_prev_line + 1) % before;
    } in
    if before == 0
    then done c
    else if ltb c.last_prev_line (length c.context_prev_lines)
    then done appended
    else fault

-- A line in front of a match, with its number; a cell without one prints nothing. `%s` prints up to a
-- NUL.
unfoldable pub print_prev_line : PrintOptions → PathPrint → Str → ℕ → ℕ → Option Str → Str
print_prev_line opts mode path sep number none = []
print_prev_line opts mode path sep number (some line) =
    (if is_path mode print_each_line then print_path opts mode path b':' else [])
    ++ (print_line_number opts number sep ++ (c_string line ++ (b'\n' ∷ [])))

-- The lines in front of a match, from the j-th on, up to `before`; their cells must lie in the array.
unfoldable pub print_prev_lines : PrintOptions → PathPrint → Str → ℕ → Context → ℕ → ℕ → Run Str
print_prev_lines opts mode path sep c zero j = done []
print_prev_lines opts mode path sep c (suc n) j =
    let rest = print_prev_lines opts mode path sep c n (suc j) in
    let number = c.line - (opts.before - j) in
    elim (get_elem? c.context_prev_lines ((c.last_prev_line + j) % opts.before)) as (λ _. Run Str) [
      | none ↦ fault
      | some cell ↦ rest >>= λ more. done (print_prev_line opts mode path sep number cell ++ more)
    ]

-- `lines_to_print`, an `ssize_t`: a difference from 2 ^ 63 on is negative.
unfoldable pub lines_to_print : PrintOptions → Context → ℕ
lines_to_print opts c =
    let wanted = sub_size c.lines_since_last_match ((opts.after + 1) % 2 ^ 64) in
    if leb (2 ^ 63) wanted then 0 else if ltb opts.before wanted then opts.before else wanted

unfoldable pub separator : PrintOptions → ℕ
separator opts = if opts.ackmate || opts.vimgrep then b':' else b'-'

unfoldable pub print_trailing_context :
    PrintOptions → PathPrint → Str → List ℕ → Context → Str × Context
print_trailing_context opts mode path buf c =
    let shown = not (c.lines_since_last_match == 0) && leb c.lines_since_last_match opts.after in
    let text =
      (if is_path mode print_each_line then print_path opts mode path b':' else [])
      ++ (print_line_number opts c.line (separator opts) ++ (buf ++ (b'\n' ∷ []))) in
    let since =
      if not c.in_a_match && ltb c.lines_since_last_match int_max
      then c.lines_since_last_match + 1
      else c.lines_since_last_match in
    (if shown then text else [], record c { line = c.line + 1; lines_since_last_match = since })
