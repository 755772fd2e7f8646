-- ===== src/Print/File.antt =====
-- `print_file_matches` of ag_src/print.c.
use libag.Common.{
  ℕ, zero, suc, ◌+◌, ◌-◌, ◌%◌, ◌^◌, Bool, true, false, not, ◌&&◌, ◌||◌, none, some, List, [], ◌∷◌,
  ◌++◌, length, take, drop, get_or, get_elem?, ltb, leb, ◌==◌, if◌then◌else◌, Run, done, fault,
  ◌>>=◌,
}
use libag.Cstr.{Str}
use libag.Libag.Results.{Match, sub_size}
use libag.Cli.{
  PathPrint, print_default, print_default_each_line, print_top, print_each_line, print_nothing,
}
use libag.Print.{
  PrintOptions, decimal, is_path, normalize_path, print_path, print_line_number, print_path_count,
  print_line, print_column_number, print_file_separator,
}
use libag.Print.Context.{
  Context, print_context_append, print_prev_lines, lines_to_print, separator,
  print_trailing_context,
}
use libag.Print.Line.{print_matched_line}

-- The variables of the loop: the output, the context and `cur_match`.
pub record FileState : Type 0 where
  pub out : Str
  pub ctx : Context
  pub cur_match : ℕ

-- `print_default` and its like are settled at the first file.
unfoldable pub settled_path : PathPrint → PathPrint
settled_path print_default = print_top
settled_path print_default_each_line = print_each_line
settled_path print_top = print_top
settled_path print_each_line = print_each_line
settled_path print_nothing = print_nothing

-- "Binary file %s matches.\n"
abbrev binary_file : Str
binary_file = b'B' ∷ b'i' ∷ b'n' ∷ b'a' ∷ b'r' ∷ b'y' ∷ b' ' ∷ b'f' ∷ b'i' ∷ b'l' ∷ b'e' ∷ b' ' ∷ []

abbrev matches_end : Str
matches_end = b' ' ∷ b'm' ∷ b'a' ∷ b't' ∷ b'c' ∷ b'h' ∷ b'e' ∷ b's' ∷ b'.' ∷ b'\n' ∷ []

unfoldable pub print_binary_file_matches : PrintOptions → Bool → Str → Str × Bool
print_binary_file_matches opts first path =
    let (sep, first') = print_file_separator opts first in
    (sep ++ (binary_file ++ (normalize_path path ++ matches_end)), first')

module _ (opts : PrintOptions) (mode : PathPrint) (path : Str) (buf : List ℕ)
    (matches : List Match) where
  unfoldable pub at_start : ℕ → FileState → Bool
  at_start i s = elim (get_elem? matches s.cur_match) as (λ _. Bool) [
    | none ↦ false
    | some m ↦ i == m.start
  ]

  unfoldable pub at_end : ℕ → FileState → Bool
  at_end i s = elim (get_elem? matches s.cur_match) as (λ _. Bool) [
    | none ↦ false
    | some m ↦ i == m.end
  ]

  unfoldable pub blanks_between_matches : Bool
  blanks_between_matches = opts.context || (not (opts.after == 0) || not (opts.before == 0))

  -- "We found the start of a match": the blank line, and the lines in front of the match.
  unfoldable pub start_match : ℕ → FileState → Run FileState
  start_match i s =
      let c = s.ctx in
      let blank =
        if ltb 0 s.cur_match
          && (blanks_between_matches
              && ltb ((opts.before + opts.after + 1) % 2 ^ 64) c.lines_since_last_match)
        then b'-' ∷ b'-' ∷ b'\n' ∷ []
        else [] in
      let n = lines_to_print opts c in
      let prev : Run Str =
        if ltb 0 c.lines_since_last_match && ltb 0 opts.before
        then print_prev_lines opts mode path (separator opts) c n (opts.before - n)
        else done [] in
      if at_start i s
      then (prev >>= λ lines. done (record s {
        out = s.out ++ (blank ++ lines);
        ctx = record c { in_a_match = true; lines_since_last_match = 0 };
      }))
      else done s

  unfoldable pub end_match : ℕ → FileState → FileState
  end_match i s =
      if at_end i s
      then record s { cur_match = s.cur_match + 1; ctx = record (s.ctx) { in_a_match = false } }
      else s

  unfoldable pub is_line_end : ℕ → Bool
  is_line_end i = i == length buf || get_or buf i 0 == b'\n'

  -- The line up to `i`, without its end.
  unfoldable pub line_text : ℕ → Context → Str
  line_text i c = take (i - c.prev_line_offset) (drop c.prev_line_offset buf)

  -- The headers of --ackmate, up to `cur_match`: a `size_t` difference may wrap.
  unfoldable pub ackmate_headers : ℕ → ℕ → ℕ → ℕ → Run Str
  ackmate_headers zero offset last cur = done []
  ackmate_headers (suc n) offset last cur =
      let rest = ackmate_headers n offset (suc last) cur in
      elim (get_elem? matches last) as (λ _. Run Str) [
        | none ↦ fault
        | some m ↦ rest >>= λ more. done (
            decimal (sub_size m.start offset)
            ++ (b' '
                ∷ (decimal (sub_size m.end m.start)
                    ++ ((if suc last == cur then b':' else b',') ∷ more))))
      ]

  -- The lines of --vimgrep, one for each match.
  unfoldable pub vimgrep_lines : ℕ → ℕ → Context → ℕ → Run Str
  vimgrep_lines zero i c last = done []
  vimgrep_lines (suc n) i c last =
      let rest = vimgrep_lines n i c (suc last) in
      print_column_number opts matches last c.prev_line_offset (separator opts) >>= λ column.
      print_line opts buf i c.prev_line_offset >>= λ text. rest >>= λ more. done (
        print_path opts mode path (separator opts)
        ++ (print_line_number opts c.line (separator opts) ++ (column ++ (text ++ more))))

  -- A line with a match; `last_printed_match` moves on to `cur_match`.
  unfoldable pub print_match_line : ℕ → FileState → Run FileState
  print_match_line i s =
      let c = s.ctx in
      let path_text =
        if is_path mode print_each_line && not opts.search_stream
        then print_path opts mode path b':'
        else [] in
      let caught_up =
        if ltb c.last_printed_match s.cur_match then s.cur_match else c.last_printed_match in
      let wanted = s.cur_match - c.last_printed_match in
      let next = record c { last_printed_match = caught_up } in
      let for_ackmate : Run FileState =
        ackmate_headers wanted c.line_preceding_current_match_offset c.last_printed_match
          s.cur_match
        >>= λ headers. print_line opts buf i c.prev_line_offset >>= λ text. done (record s {
          out = s.out ++ (path_text ++ (print_line_number opts c.line b';' ++ (headers ++ text)));
          ctx = next;
        }) in
      let for_vimgrep : Run FileState = vimgrep_lines wanted i c c.last_printed_match >>= λ text.
      done (record s { out = s.out ++ (path_text ++ text); ctx = next }) in
      let plain : Run FileState =
        print_matched_line opts mode path buf matches c.line c.prev_line_offset i (record {
          out = s.out ++ path_text;
          last_printed_match = c.last_printed_match;
          printing_a_match = c.printing_a_match;
          printed_match = false;
        })
        >>= λ l. done (record s {
          out = l.out;
          ctx = record c {
            last_printed_match = l.last_printed_match;
            printing_a_match = l.printing_a_match;
          };
        }) in
      if opts.ackmate then for_ackmate else if opts.vimgrep then for_vimgrep else plain

  -- What follows the line: the context behind a match, and the start of the next line. The newline of
  -- a file without one looks at the byte in front of the end, also of an empty file.
  unfoldable pub end_line : ℕ → FileState → Run FileState
  end_line i s =
      let c = s.ctx in
      let (text, c') = print_trailing_context opts mode path (line_text i c) c in
      let preceding = if c'.in_a_match then c'.line_preceding_current_match_offset else i + 1 in
      let next = record c' {
        prev_line_offset = i + 1;
        line_preceding_current_match_offset = preceding;
      } in
      let closing =
        if i == length buf && not (get_or buf (i - 1) 0 == b'\n') then b'\n' ∷ [] else [] in
      if i == 0 && length buf == 0
      then fault
      else done (record s { out = s.out ++ (text ++ closing); ctx = next })

  -- The end of a line at `i`; the Boolean says whether the search of a stream leaves the loop.
  unfoldable pub line_end : ℕ → FileState → Run (FileState × Bool)
  line_end i s = print_context_append opts.before (line_text i s.ctx) s.ctx >>= λ c.
      let kept = record s { ctx = c } in
      let printed : Run FileState =
        if c.lines_since_last_match == 0 then print_match_line i kept else done kept in
      printed >>= λ t.
      if opts.search_stream
      then done (record t { ctx = record (t.ctx) { last_printed_match = 0 } }, true)
      else end_line i t >>= λ u. done (u, false)

  -- The loop over the bytes, from `i` on; `length buf + 1` rounds are enough.
  unfoldable pub file_loop : ℕ → ℕ → FileState → Run FileState
  file_loop zero i s = done s
  file_loop (suc n) i s =
      let rest : FileState → Run FileState = λ u. file_loop n (suc i) u in
      let ended : FileState → Run FileState =
        λ t. line_end i t >>= λ r. if r.1 then done (r.0) else rest (r.0) in
      let next : FileState → Run FileState = λ t. if is_line_end i then ended t else rest t in
      if ltb s.cur_match (length matches) || leb s.ctx.lines_since_last_match opts.after
      then (start_match i s >>= λ u. next (end_match i u))
      else done s

-- With the output, the context, and the settled `print_path` and `first_file_match`.
unfoldable pub print_file_matches :
    PrintOptions
    → PathPrint
    → Bool
    → Str
    → List ℕ
    → List Match
    → Context
    → Run (Str × Context × PathPrint × Bool)
print_file_matches opts mode first path buf matches c =
    let (sep, first') = print_file_separator opts first in
    let settled = settled_path mode in
    let top =
      if is_path settled print_top
      then if opts.print_count
        then print_path_count opts settled path opts.path_sep (length matches)
        else print_path opts settled path opts.path_sep
      else [] in
    file_loop opts settled path buf matches (length buf + 1) 0
      (record { out = sep ++ top; ctx = c; cur_match = 0 })
    >>= λ s. done (s.out, s.ctx, settled, first')
