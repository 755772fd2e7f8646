-- ===== src/Print/Whole.antt =====
-- `print_file_matches` of ag_src/print.c as a whole: that it ends, and where its context stands then.
use libag.Common.{ℕ, ◌<◌, ◌≡◌, false, List, length}
use libag.Cstr.{Str}
use libag.Libag.Results.{Match}
use libag.Cli.{PathPrint}
use libag.Print.{PrintOptions}
use libag.Print.Context.{Context}
use libag.Print.File.{FileState}
use libag.Print.Passed.{Passed}

-- The options of an output for people, with no column: neither --ackmate nor --vimgrep, and not a
-- stream.
pub record IsForPeople (opts : PrintOptions) : Type 0 where
  pub no_ackmate : opts.ackmate ≡ false
  pub no_vimgrep : opts.vimgrep ≡ false
  pub no_column : opts.column ≡ false
  pub no_stream : opts.search_stream ≡ false

module _ (opts : PrintOptions) (mode : PathPrint) (path : Str) (buf : List ℕ) (matches : List Match)
    (h : IsForPeople opts) (nonempty : 0 < length buf) where
  abbrev Past : FileState → Type 0
  Past s = (i : ℕ) × Passed opts mode path buf matches i s.ctx
