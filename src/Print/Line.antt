-- ===== src/Print/Line.antt =====
-- A line with matches, as `print_file_matches` of ag_src/print.c prints it but for --ackmate and
-- --vimgrep: the loop over its bytes.
use libag.Common.{
  ℕ, zero, suc, ◌+◌, ◌-◌, Bool, true, false, not, ◌&&◌, ◌||◌, none, some, List, [], ◌∷◌, ◌++◌,
  length, get_or, get_elem?, ltb, leb, ◌==◌, if◌then◌else◌, Run, done, ◌>>=◌,
}
use libag.Cstr.{Str}
use libag.Libag.Results.{Match}
use libag.Cli.{PathPrint, print_each_line}
use libag.Print.{
  PrintOptions, color_reset, truncate_marker, is_path, print_path, print_line_number,
  print_column_number,
}

-- The variables of the loop: the output, `last_printed_match`, `printing_a_match`, and `printed_match`.
pub record LineState : Type 0 where
  pub out : Str
  pub last_printed_match : ℕ
  pub printing_a_match : Bool
  pub printed_match : Bool

module _ (opts : PrintOptions) (mode : PathPrint) (path : Str) (buf : List ℕ) (matches : List Match)
    (line prev_line_offset : ℕ) where
  unfoldable pub emit : Str → LineState → LineState
  emit text s = record s { out = s.out ++ text }

  -- Whether the next match to print starts, or ends, at `j`.
  unfoldable pub starts_at : ℕ → LineState → Bool
  starts_at j s = elim (get_elem? matches s.last_printed_match) as (λ _. Bool) [
    | none ↦ false
    | some m ↦ j == m.start
  ]

  unfoldable pub ends_at : ℕ → LineState → Bool
  ends_at j s = elim (get_elem? matches s.last_printed_match) as (λ _. Bool) [
    | none ↦ false
    | some m ↦ j == m.end
  ]

  -- "close highlight of match term"
  unfoldable pub close_match : ℕ → LineState → LineState
  close_match j s =
      if ends_at j s
      then record s {
        out =
            s.out
            ++ ((if opts.color then color_reset else [])
                ++ (if opts.only_matching then b'\n' ∷ [] else []));
        last_printed_match = s.last_printed_match + 1;
        printing_a_match = false;
        printed_match = true;
      }
      else s

  -- "skip remaining characters if truncation width exceeded"
  unfoldable pub exceeds : ℕ → Bool
  exceeds j = ltb j (length buf) && (ltb 0 opts.width && leb opts.width (j - prev_line_offset))

  unfoldable pub truncate : ℕ → ℕ → LineState → LineState
  truncate i j s =
      if exceeds j
      then record s {
        out = s.out ++ ((if ltb j i then truncate_marker else []) ++ (b'\n' ∷ []));
        last_printed_match = length matches;
      }
      else s

  -- The path, the line number and the column in front of a further match of --only-matching.
  unfoldable pub match_header : LineState → Run Str
  match_header s =
      let column : Run Str =
        if opts.column
        then print_column_number opts matches s.last_printed_match prev_line_offset b':'
        else done [] in
      let text = column >>= λ c. done (
        (if is_path mode print_each_line then print_path opts mode path b':' else [])
        ++ (print_line_number opts line b':' ++ c)) in
      if opts.only_matching && s.printed_match then text else done []

  -- "open highlight of match term"
  unfoldable pub open_match : ℕ → LineState → Run LineState
  open_match j s =
      let opened : Run LineState = match_header s >>= λ header. done (record s {
        out = s.out ++ (header ++ (if opts.color then opts.color_match else []));
        printing_a_match = true;
      }) in
      if starts_at j s then opened else done s

  -- The byte itself, "print only matches and newlines".
  unfoldable pub put_byte : ℕ → LineState → LineState
  put_byte j s =
      if ltb j (length buf)
        && ((not opts.only_matching || s.printing_a_match)
            && (opts.width == 0 || ltb (j - prev_line_offset) opts.width))
      then emit (get_or buf j 0 ∷ []) s
      else s

  -- The loop from `j` on, `n` rounds at most; `i` is the end of the line. A truncation sets `j` to `i`.
  unfoldable pub line_loop : ℕ → ℕ → ℕ → LineState → Run LineState
  line_loop zero i j s = done s
  line_loop (suc n) i j s =
      let cut = exceeds j in
      let at = if cut then i else j in
      open_match at (truncate i j (close_match j s)) >>= λ opened.
      let put = put_byte at opened in if cut then done put else line_loop n i (suc j) put

  -- The line up to `i`, behind its number.
  unfoldable pub print_matched_line : ℕ → LineState → Run LineState
  print_matched_line i s =
      let column : Run Str =
        if opts.column
        then print_column_number opts matches s.last_printed_match prev_line_offset b':'
        else done [] in
      column >>= λ c.
      let started =
        emit
          (print_line_number opts line b':'
            ++ (c ++ (if s.printing_a_match && opts.color then opts.color_match else [])))
          (record s { printed_match = false }) in
      line_loop (i + 1 - prev_line_offset) i prev_line_offset started >>= λ ended.
      done (emit (if ended.printing_a_match && opts.color then color_reset else []) ended)
