-- ===== src/Print.antt =====
-- ag_src/print.c: the output of the command line. `Context` has the lines in front of a match, `Line` a
-- line with its matches, `File` the matches of a file. What is written is a list of bytes.
pub mod Context
pub mod Line
pub mod File
pub mod Ring
pub mod Plain
pub mod Passed
pub mod Shown
pub mod Whole
use libag.Common.{
  ℕ, zero, suc, ◌+◌, ◌-◌, ◌*◌, ◌/◌, ◌%◌, Bool, true, false, not, ◌&&◌, Option, none, some, List, [],
  ◌∷◌, ◌++◌, length, take, drop, get_or, get_elem?, ltb, leb, ◌==◌, if◌then◌else◌, Run, done, fault,
}
use libag.Cstr.{Str}
use libag.Libag.Results.{Match}
use libag.Cli.{
  PathPrint, print_default, print_default_each_line, print_top, print_each_line, print_nothing,
}

-- The fields of `cli_options` that print.c reads, but for `print_path`, which it sets. `context` says
-- whether `opts.context` is not 0.
pub record PrintOptions : Type 0 where
  pub ackmate : Bool
  pub vimgrep : Bool
  pub color : Bool
  pub color_path : Str
  pub color_match : Str
  pub color_line_number : Str
  pub path_sep : ℕ
  pub print_break : Bool
  pub print_count : Bool
  pub print_line_numbers : Bool
  pub column : Bool
  pub only_matching : Bool
  pub width : ℕ
  pub before : ℕ
  pub after : ℕ
  pub context : Bool
  pub search_stream : Bool

-- "\033[0m\033[K"
abbrev pub color_reset : Str
color_reset = 0x1b ∷ b'[' ∷ b'0' ∷ b'm' ∷ 0x1b ∷ b'[' ∷ b'K' ∷ []

-- " [...]"
abbrev pub truncate_marker : Str
truncate_marker = b' ' ∷ b'[' ∷ b'.' ∷ b'.' ∷ b'.' ∷ b']' ∷ []

-- `%lu`; a number has no more digits than its value, or one.
unfoldable pub digits : ℕ → ℕ → Str
digits zero n = []
digits (suc fuel) n =
    let front = digits fuel (n / 10) in
    if ltb n 10 then (48 + n) ∷ [] else front ++ ((48 + n % 10) ∷ [])

unfoldable pub decimal : ℕ → Str
decimal n = digits (suc n) n

unfoldable pub is_path : PathPrint → PathPrint → Bool
is_path print_default print_default = true
is_path print_default_each_line print_default_each_line = true
is_path print_top print_top = true
is_path print_each_line print_each_line = true
is_path print_nothing print_nothing = true
is_path _ _ = false

unfoldable pub normalize_path : Str → Str
normalize_path path =
    if ltb (length path) 3
    then path
    else if get_or path 0 0 == b'.' && get_or path 1 0 == b'/'
    then drop 2 path
    else if get_or path 0 0 == b'/' && get_or path 1 0 == b'/'
    then drop 1 path
    else path

module _ (opts : PrintOptions) where
  unfoldable pub coloured : Str → Str → Str
  coloured colour s = if opts.color then colour ++ (s ++ color_reset) else s

  unfoldable pub print_path : PathPrint → Str → ℕ → Str
  print_path mode path sep =
      if is_path mode print_nothing && not opts.vimgrep
      then []
      else if opts.ackmate
      then b':' ∷ (normalize_path path ++ (sep ∷ []))
      else if opts.vimgrep
      then normalize_path path ++ (sep ∷ [])
      else coloured opts.color_path (normalize_path path) ++ (sep ∷ [])

  unfoldable pub print_line_number : ℕ → ℕ → Str
  print_line_number line sep =
      if opts.print_line_numbers
      then coloured opts.color_line_number (decimal line) ++ (sep ∷ [])
      else []

  unfoldable pub print_path_count : PathPrint → Str → ℕ → ℕ → Str
  print_path_count mode path sep count =
      (if length path == 0 then [] else print_path mode path b':')
      ++ (coloured opts.color_line_number (decimal count) ++ (sep ∷ []))

  -- The bytes from the start of the line to `buf_pos`, which are read also where the buffer ends in
  -- front of `buf_pos`.
  unfoldable pub print_line : List ℕ → ℕ → ℕ → Run Str
  print_line buf buf_pos prev_line_offset =
      let whole = buf_pos - prev_line_offset + 1 in
      let write_chars = if ltb 0 opts.width && ltb opts.width whole then opts.width else whole in
      if leb (prev_line_offset + write_chars) (length buf)
      then done (take write_chars (drop prev_line_offset buf))
      else fault

  -- `none` is a read behind the matches.
  unfoldable pub print_column_number : List Match → ℕ → ℕ → ℕ → Run Str
  print_column_number matches last_printed_match prev_line_offset sep =
      elim (get_elem? matches last_printed_match) as (λ _. Run Str) [
        | none ↦ fault
        | some m ↦
            let column =
              if leb prev_line_offset m.start then m.start - prev_line_offset + 1 else 0 in
            done (decimal column ++ (sep ∷ []))
      ]

  -- With the new `first_file_match`.
  unfoldable pub print_file_separator : Bool → Str × Bool
  print_file_separator first_file_match =
      (if not first_file_match && opts.print_break then b'\n' ∷ [] else [], false)
