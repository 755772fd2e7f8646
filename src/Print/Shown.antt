-- ===== src/Print/Shown.antt =====
-- The line of `print_file_matches` in ag_src/print.c, with any colours and any width.
use libag.Common.{
  ℕ, zero, suc, ◌≡◌, false, ◌&&◌, List, [], if◌then◌else◌, Run, done, Returns, Returns->>=,
}
use libag.Cstr.{Str}
use libag.Libag.Results.{Match}
use libag.Cli.{PathPrint}
use libag.Cli.Settled.{if-holds}
use libag.Print.{PrintOptions}
use libag.Print.Line.{
  LineState, starts_at, match_header, open_match, exceeds, line_loop, print_matched_line,
}

abbrev pub Any : {A : Type 0} → A → Type 0
Any a = Unit

module _ (opts : PrintOptions) (mode : PathPrint) (path : Str) (buf : List ℕ) (matches : List Match)
    (line prev_line_offset : ℕ) (no_column : opts.column ≡ false) where
  column-Returns : (number : Run Str) → Returns Any (if opts.column then number else done [])
  column-Returns number = rw no_column tt

  match_header-Returns :
      (s : LineState)
      → Returns Any (match_header opts mode path buf matches line prev_line_offset s)
  unfolding match_header
  match_header-Returns s =
      if-holds (Returns Any) (opts.only_matching && s.printed_match) _ (done [])
        (λ e. Returns->>= Any Any _ _ (column-Returns _) (λ c h. tt)) (λ e. tt)

  open_match-Returns :
      (j : ℕ) (s : LineState)
      → Returns Any (open_match opts mode path buf matches line prev_line_offset j s)
  unfolding open_match
  open_match-Returns j s =
      if-holds (Returns Any) (starts_at opts mode path buf matches line prev_line_offset j s) _
        (done s) (λ e. Returns->>= Any Any _ _ (match_header-Returns s) (λ c h. tt)) (λ e. tt)

  line_loop-Returns :
      (n i j : ℕ) (s : LineState)
      → Returns Any (line_loop opts mode path buf matches line prev_line_offset n i j s)
  unfolding line_loop
  line_loop-Returns zero i j s = tt
  line_loop-Returns (suc n) i j s =
      let cut = exceeds opts mode path buf matches line prev_line_offset j in
      Returns->>= Any Any _ _ (open_match-Returns _ _) (λ t h.
        if-holds (Returns Any) cut (done _) _ (λ e. tt) (λ e. line_loop-Returns n i (suc j) _))

  pub print_matched_line-Returns :
      (i : ℕ) (s : LineState)
      → Returns Any (print_matched_line opts mode path buf matches line prev_line_offset i s)
  unfolding print_matched_line
  print_matched_line-Returns i s =
      Returns->>= Any Any _ _ (column-Returns _)
        (λ c h. Returns->>= Any Any _ _ (line_loop-Returns _ i _ _) (λ t k. tt))
