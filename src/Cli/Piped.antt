-- ===== src/Cli/Piped.antt =====
-- The output of a search of paths in ag_src/options.c, where the standard input is a file or a pipe.
use libag.Common.{
  ◌≡◌, true, false, not, ◌&&◌, List, ◌∷◌, length, ◌==◌, refl, arith, ◌<◌, ==_of_ne, &&-false, some,
}
use libag.Cstr.{Str}
use libag.Cli.{CliOptions, Parser, Parsing, going, print_nothing}
use libag.Cli.Switch.{with_opts}
use libag.Cli.Settle.{Around, Settled, take_query, with_query, settle_query, is_empty}
use libag.Cli.Output.{
  settle_context, settle_ackmate, settle_vimgrep, settle_parallel, settle_group, settle_stream,
  settle_output, is_positive, is_default,
}
use libag.Cli.Settled.{if-holds, true_not_false}

-- None of the options that turn the search of a stream off.
abbrev pub IsPiped : CliOptions → Type 0
IsPiped o =
    (o.search_stream ≡ true) × (o.ackmate ≡ false) × (o.vimgrep ≡ false) × (o.parallel ≡ false)

settle_output-print_path :
    (p : Parser) → IsPiped p.opts → (settle_output p).print_path ≡ print_nothing
unfolding settle_output settle_context settle_ackmate settle_vimgrep settle_parallel settle_group
    settle_stream with_opts
settle_output-print_path p piped =
    let contexts = with_opts settle_context p in
    let acked = settle_ackmate contexts in
    let q = settle_vimgrep acked in
    let o = settle_parallel q.opts in
    let c = if-holds IsPiped (is_positive p.opts.context) _ p.opts (λ e. piped) (λ e. piped) in
    let a =
      if-holds (λ r. IsPiped r.opts) contexts.opts.ackmate _ contexts
        (λ e. true_not_false contexts.opts.ackmate e c.1) (λ e. c) in
    let v =
      if-holds (λ r. IsPiped r.opts) acked.opts.vimgrep _ acked
        (λ e. true_not_false acked.opts.vimgrep e a.2) (λ e. a) in
    let l =
      if-holds IsPiped q.opts.parallel _ q.opts (λ e. true_not_false q.opts.parallel e v.3)
        (λ e. v) in
    let g =
      if-holds IsPiped (is_default o.print_path && o.print_break) _ o
        (λ e. if-holds IsPiped q.group o _ (λ f. l) (λ f. l)) (λ e. l) in
    if-holds (λ r. r.print_path ≡ print_nothing) (settle_group q.group o).search_stream _
      (settle_group q.group o) (λ e. refl) (λ e. true_not_false _ g.0 e)

module _ (around : Around) (p : Parser) (query path : Str) (paths : List Str)
    (piped : IsPiped p.opts) (nonempty : 0 < length query) where
  abbrev pub SearchesPaths : Parsing Settled → Type 0
  SearchesPaths m =
      (r : Settled) × (m ≡ going r)
      × (r.opts.search_stream ≡ false)
      × (r.opts.print_path ≡ print_nothing)

  with_query-SearchesPaths :
      SearchesPaths (with_query around p (settle_output p) (some (query, path ∷ paths)))
  unfolding with_query is_empty
  with_query-SearchesPaths =
      if-holds SearchesPaths (length query == 0) _ _ (λ e. ground (arith, e, nonempty))
        (λ e. (_, refl, refl, settle_output-print_path p piped))

  -- Where the standard input is a file or a pipe, and no option turns the search of a stream off, a
  -- query with paths behind it is searched in the paths, and `print_path` is `print_nothing`, whatever
  -- other options ask for.
  pub settle_query-piped :
      p.accepts_query ≡ true
      → SearchesPaths (settle_query around p (query ∷ path ∷ paths) (settle_output p))
  unfolding settle_query take_query
  settle_query-piped accepts =
      let asked : (length query == 0) ≡ false = ==_of_ne _ _ (λ e. omega (arith, e)) in
      if-holds (λ t. SearchesPaths (with_query around p (settle_output p) t)) p.accepts_query _ _
        (λ e. rw (asked, &&-false (not p.needs_query)) with_query-SearchesPaths)
        (λ e. true_not_false p.accepts_query accepts e)
