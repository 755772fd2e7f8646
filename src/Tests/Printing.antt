-- ===== src/Tests/Printing.antt =====
-- Runs of the model of the output.
use libag.Common.{
  ℕ, ◌+◌, ◌≡◌, refl, true, false, none, some, ◌^◌, subst, List, [], ◌∷◌, ◌++◌, take, drop, ◌-◌,
  done, fault, Returns, arith,
}
use libag.Ignore.Load.{c_string}
use libag.Libag.Results.{Match}
use libag.Cli.{print_top}
use libag.Print
use libag.Print.{PrintOptions, print_line_number}
use libag.Print.Context
use libag.Print.Context.{Context, print_init_context, print_context_append, print_prev_lines}
use libag.Print.Line
use libag.Print.Line.{LineState, print_matched_line}
use libag.Print.File
use libag.Print.File.{settled_path, print_file_matches}
use libag.Print.Passed.{Passed}
use libag.Print.Ring.{
  Keeps, init-Keeps, print_context_append-Keeps, last_lines, print_prev_lines-Keeps,
}
use libag.Print.Plain.{print_matched_line-out}

program : Unit {0}
unfolding c_string Print.digits Print.decimal Print.is_path Print.normalize_path Print.coloured
    Print.print_path Print.print_line_number Print.print_path_count Print.print_line
    Print.print_column_number Print.print_file_separator Context.print_init_context
    Context.print_context_append Context.print_prev_line Context.print_prev_lines
    Context.lines_to_print Context.separator Context.print_trailing_context Line.emit Line.starts_at
    Line.ends_at Line.close_match Line.exceeds Line.truncate Line.match_header Line.open_match
    Line.put_byte Line.line_loop Line.print_matched_line File.settled_path File.at_start File.at_end
    File.blanks_between_matches File.start_match File.end_match File.is_line_end File.line_text
    File.print_match_line File.end_line File.line_end File.file_loop File.print_file_matches
program = tt

abbrev opts : PrintOptions
opts = record {
  ackmate = false;
  vimgrep = false;
  color = false;
  color_path = [];
  color_match = [];
  color_line_number = [];
  path_sep = b'\n';
  print_break = true;
  print_count = false;
  print_line_numbers = true;
  column = false;
  only_matching = false;
  width = 0;
  before = 1;
  after = 0;
  context = false;
  search_stream = false;
}

-- "ab\ncd\n"
abbrev text : List ℕ
text = b'a' ∷ b'b' ∷ b'\n' ∷ b'c' ∷ b'd' ∷ b'\n' ∷ []

-- "d"
abbrev hit : List Match
hit = record { start = 4; end = 5 } ∷ []

-- "f\n1-ab\n2:cd\n"
printed :
    (r : Context) × (print_file_matches opts print_top true
        (b'f' ∷ [])
        text
        hit
        (print_init_context 1 none)
      ≡ done (
        b'f' ∷ b'\n' ∷ b'1' ∷ b'-' ∷ b'a' ∷ b'b' ∷ b'\n' ∷ b'2' ∷ b':' ∷ b'c' ∷ b'd' ∷ b'\n' ∷ [],
        r,
        print_top,
        false,
      ))
unfolding program
printed = (_, refl)

abbrev state : LineState
state = record { out = []; last_printed_match = 0; printing_a_match = false; printed_match = false }

print_matched_line-out_example :
    Returns
      (λ t. t.out ≡ [] ++ (print_line_number opts 2 b':' ++ take (5 + 1 - 3) (drop 3 text)))
      (print_matched_line opts print_top (b'f' ∷ []) text hit 2 3 5 state)
print_matched_line-out_example =
    print_matched_line-out opts print_top (b'f' ∷ []) text hit 2 3
      (record { no_color = refl; no_width = refl; no_column = refl; whole_lines = refl }) 5 state
      (omega arith) (omega arith)

-- The context behind the line "a".
abbrev one_line : Context
one_line = record {
  line = 1;
  context_prev_lines = some (b'a' ∷ []) ∷ none ∷ [];
  last_prev_line = 0;
  prev_line_offset = 0;
  line_preceding_current_match_offset = 0;
  lines_since_last_match = 2 ^ 31 - 1;
  last_printed_match = 0;
  in_a_match = false;
  printing_a_match = false;
}

appended : print_context_append 1 (b'a' ∷ []) (print_init_context 1 none) ≡ done one_line
unfolding program
appended = refl

-- As many lines as `-B -1` asks for have no cell at all.
no_cells :
    print_context_append (2 ^ 64 - 1) (b'a' ∷ []) (print_init_context (2 ^ 64 - 1) none) ≡ fault
unfolding program
no_cells = refl

one_line-Keeps : Keeps 1 one_line ((b'a' ∷ []) ∷ [])
unfolding Context.print_init_context
one_line-Keeps =
    (subst (Returns (λ d. Keeps 1 d ((b'a' ∷ []) ∷ []) × (d.prev_line_offset ≡ 0) × (d.line ≡ 1)))
      appended first).0
  where
    first :
        Returns
          (λ d. Keeps 1 d ((b'a' ∷ []) ∷ []) × (d.prev_line_offset ≡ 0) × (d.line ≡ 1))
          (print_context_append 1 (b'a' ∷ []) (print_init_context 1 none))
    first =
        print_context_append-Keeps 1 (print_init_context 1 none) [] (b'a' ∷ [])
          (init-Keeps 1 (omega arith) (omega arith))

print_context_append-Keeps_example :
    Returns
      (λ d.
        Keeps 1 d ((b'b' ∷ []) ∷ ((b'a' ∷ []) ∷ []))
        × (d.prev_line_offset ≡ one_line.prev_line_offset)
        × (d.line ≡ one_line.line))
      (print_context_append 1 (b'b' ∷ []) one_line)
print_context_append-Keeps_example =
    print_context_append-Keeps 1 one_line ((b'a' ∷ []) ∷ []) (b'b' ∷ []) one_line-Keeps

print_prev_lines-Keeps_example :
    print_prev_lines opts print_top (b'f' ∷ []) b'-' one_line 1 (1 - 1)
    ≡ done (last_lines opts print_top (b'f' ∷ []) b'-' one_line.line 1 ((b'a' ∷ []) ∷ []))
print_prev_lines-Keeps_example =
    print_prev_lines-Keeps opts print_top (b'f' ∷ []) b'-' one_line ((b'a' ∷ []) ∷ []) 1
      one_line-Keeps (omega arith)
