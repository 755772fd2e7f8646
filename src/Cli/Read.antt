-- ===== src/Cli/Read.antt =====
-- The loop of `parse_options` in ag_src/options.c: what it keeps, and that it ends.
use libag.Common.{ℕ, ◌+◌, ◌≡◌, ◌≤◌, ◌<◌, Bool, false, some, length}
use libag.Cli.{Parser}
use libag.Cli.Switch.{Libc, Arg, short, long, file_type, Position, Getopt}
use libag.Cli.Settled.{Ends}
use libag.Cli.Ends.{MayNeedQuery}
use libag.Cli.Kept.{HasNumber, Kept}

-- The places that an option takes in `ext_index`.
abbrev pub types_in : Arg → ℕ
types_in (short ch optarg) = 0
types_in (long name optarg) = 0
types_in (file_type i) = 1

-- What an option leaves, with the length of `ext_index`.
abbrev Counted : Parser → Arg → Parser × Bool → Type 0
Counted p arg r =
    MayNeedQuery r.0 × (length r.0.ext_index ≡ length p.ext_index + types_in arg) × (r.1 ≡ false)

-- The options of a command line: `getopt_long` finds an end to them, no more file types than it
-- counts, and a number where an argument is to have the length of a context.
pub record IsRead (libc : Libc) (getopt_long : Getopt) : Type 0 where
  pub options_left : Position → ℕ
  pub types_left : Position → ℕ
  pub fewer_options :
      (at : Position) (arg : Arg) (behind : Position)
      → getopt_long at ≡ some (arg, behind)
      → options_left behind < options_left at
  pub fewer_types :
      (at : Position) (arg : Arg) (behind : Position)
      → getopt_long at ≡ some (arg, behind)
      → types_left behind + types_in arg ≤ types_left at
  pub numbers :
      (at : Position) (arg : Arg) (behind : Position)
      → getopt_long at ≡ some (arg, behind)
      → HasNumber libc arg

abbrev Read : Parser × ℕ → Type 0
Read r = MayNeedQuery r.0

abbrev Fresh : Parser → Type 0
Fresh p = MayNeedQuery p × (length p.ext_index ≡ 0)
