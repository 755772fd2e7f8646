-- ===== src/Cli/Output.antt =====
-- What `parse_options` of ag_src/options.c settles for the output: from the context to the streams.
use libag.Common.{Bool, true, false, ◌&&◌, ltb, ◌==◌, if◌then◌else◌}
use libag.Common.Int.{ℤ, pos, negsuc}
use libag.Cli.{
  CliOptions, Parser, as_size, PathPrint, print_default, print_default_each_line, print_top,
  print_each_line, print_nothing,
}
use libag.Cli.Switch.{with_opts}

unfoldable pub is_positive : ℤ → Bool
is_positive (pos n) = ltb 0 n
is_positive (negsuc n) = false

unfoldable pub settle_context : CliOptions → CliOptions
settle_context o =
    if is_positive o.context
    then record o { before = as_size o.context; after = as_size o.context }
    else o

unfoldable pub settle_ackmate : Parser → Parser
settle_ackmate p =
    if p.opts.ackmate
    then with_opts (λ o. record o { color = false; print_break = true; search_stream = false })
        (record p { group = true })
    else p

unfoldable pub settle_vimgrep : Parser → Parser
settle_vimgrep p =
    if p.opts.vimgrep
    then with_opts
        (λ o. record o {
          color = false;
          print_break = false;
          search_stream = false;
          print_path = print_nothing;
        })
        (record p { group = true })
    else p

unfoldable pub settle_parallel : CliOptions → CliOptions
settle_parallel o = if o.parallel then record o { search_stream = false } else o

unfoldable pub is_default : PathPrint → Bool
is_default print_default = true
is_default print_default_each_line = false
is_default print_top = false
is_default print_each_line = false
is_default print_nothing = false

unfoldable pub settle_group : Bool → CliOptions → CliOptions
settle_group group o =
    if is_default o.print_path && o.print_break
    then if group then o else record o { print_path = print_default_each_line; print_break = false }
    else o

unfoldable pub settle_stream : CliOptions → CliOptions
settle_stream o =
    if o.search_stream
    then record o {
      print_break = false;
      print_path = print_nothing;
      print_line_numbers = if o.print_line_numbers == 2 then 2 else 0;
    }
    else o

-- From the context to the output of a stream.
unfoldable pub settle_output : Parser → CliOptions
settle_output p =
    let q = settle_vimgrep (settle_ackmate (with_opts settle_context p)) in
    settle_stream (settle_group q.group (settle_parallel q.opts))
