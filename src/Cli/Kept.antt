-- ===== src/Cli/Kept.antt =====
-- The switch of `parse_options` in ag_src/options.c: what each option leaves of the parser.
use libag.Common.{ℕ, ◌≡◌, Bool, true, false, ◌||◌, Option, none, some, ◌==◌, refl, arith}
use libag.Cstr.{Str}
use libag.Cli.{Parser, going, exited, as_size}
use libag.Cli.Entries.{
  base_longopts, sets_opts, sets_group, lists_file_types, asks_version, sets_useless, short_for,
  by_name, Entry, NamedOption, named_ackmate_dir_filter, named_color_line_number, named_color_match,
  named_color_path, named_depth, named_filename, named_ignore, named_ignore_dir, named_no_filename,
  named_nofilename, named_no_pager, named_nopager, named_pager, named_print_all_files, named_silent,
  named_stats_only, named_workers,
}
use libag.Cli.Switch.{
  Libc, Arg, short, long, file_type, Switched, with_opts, set_opts, context_len, is_given, required,
  set_file_search, switch_argument, short_setting, switch_local, switch_short, switch_named,
  switch_entry,
}
use libag.Cli.Settled.{Ends, if-holds}
use libag.Cli.Ends.{MayNeedQuery}

-- A context option, where it has its length in its argument, has a number there.
abbrev ShortHasNumber : Libc → ℕ → Option Str → Type 0
ShortHasNumber libc ch optarg =
    (ch == b'A' || (ch == b'B' || ch == b'C')) ≡ true → (context_len libc optarg).1 ≡ false

abbrev EntryHasNumber : Libc → Entry → Option Str → Type 0
EntryHasNumber libc (sets_opts change) optarg = Unit
EntryHasNumber libc (sets_group group) optarg = Unit
EntryHasNumber libc lists_file_types optarg = Unit
EntryHasNumber libc asks_version optarg = Unit
EntryHasNumber libc sets_useless optarg = Unit
EntryHasNumber libc (short_for ch) optarg = ShortHasNumber libc ch optarg
EntryHasNumber libc (by_name named) optarg = Unit

abbrev pub HasNumber : Libc → Arg → Type 0
HasNumber libc (short ch optarg) = ShortHasNumber libc ch optarg
HasNumber libc (long name optarg) = EntryHasNumber libc (base_longopts name) optarg
HasNumber libc (file_type i) = Unit

-- What an option leaves: the parser needs a query only if it accepts one, has no more file types than
-- before, and `optind` has not gone back.
abbrev pub Kept : Parser → Parser × Bool → Type 0
Kept p r = MayNeedQuery r.0 × (r.0.ext_index ≡ p.ext_index) × (r.1 ≡ false)

set_file_search-Kept :
    (optarg : Option Str) (p q : Parser)
    → MayNeedQuery q
    → q.ext_index ≡ p.ext_index
    → Ends (Kept p) (set_file_search optarg q)
unfolding set_file_search
set_file_search-Kept optarg p q m same =
    if-holds (Ends (Kept p)) (is_given q.file_search_source) (exited 1)
      (going (record q { file_search_source = some (required optarg) }, false)) (λ given. tt)
      (λ e. (m, same, refl))

module _ (libc : Libc) (optarg : Option Str) (p : Parser) (m : MayNeedQuery p) where
  switch_argument-Kept :
      (ch : ℕ) → ShortHasNumber libc ch optarg → Ends (Kept p) (switch_argument libc ch optarg p)
  unfolding switch_argument set_opts with_opts
  switch_argument-Kept ch number =
      let K = Ends (Kept p) in
      if-holds K (ch == b'A') _ _ (λ a. (m, refl, number (ground (arith, a))))
        (λ na.
          if-holds K (ch == b'B') _ _ (λ b. (m, refl, number (ground (arith, b))))
            (λ nb.
              if-holds K (ch == b'C') _ _ (λ c. (m, refl, number (ground (arith, c))))
                (λ nc.
                  if-holds K (ch == b'g') _ _
                    (λ e. set_file_search-Kept optarg p _ (λ _. refl) refl)
                    (λ ng.
                      if-holds K (ch == b'G') _ _ (λ e. set_file_search-Kept optarg p p m refl)
                        (λ nG.
                          if-holds K (ch == b'm') _ _ (λ e. (m, refl, refl))
                            (λ nm.
                              if-holds K (ch == b'p') _ _ (λ e. (m, refl, refl))
                                (λ np.
                                  if-holds K (ch == b'W') _ (exited 1)
                                    (λ e.
                                      elim (libc.strtol (required optarg))
                                        as (λ r. K (elim r as (λ _. Switched) [
                                          | none ↦ exited 2
                                          | some n ↦
                                              set_opts (λ o. record o { width = as_size n }) p
                                        ])) [ none ↦ tt | some n ↦ (m, refl, refl) ])
                                    (λ nW. tt))))))))

  switch_local-Kept :
      (ch : ℕ) → ShortHasNumber libc ch optarg → Ends (Kept p) (switch_local libc ch optarg p)
  unfolding switch_local set_opts with_opts
  switch_local-Kept ch number =
      let K = Ends (Kept p) in
      if-holds K (ch == b'h') _ _ (λ e. (m, refl, refl))
        (λ nh.
          if-holds K (ch == b'V') _ _ (λ e. (m, refl, refl))
            (λ nV.
              if-holds K (ch == b'L') _ _ (λ e. ((λ _. refl), refl, refl))
                (λ nL.
                  if-holds K (ch == b'l') _ _ (λ e. ((λ _. refl), refl, refl))
                    (λ nl. switch_argument-Kept ch number))))

  pub switch_short-Kept :
      (ch : ℕ) → ShortHasNumber libc ch optarg → Ends (Kept p) (switch_short libc ch optarg p)
  unfolding switch_short set_opts with_opts
  switch_short-Kept ch number =
      elim (short_setting ch)
        as (λ r. Ends (Kept p) (elim r as (λ _. Switched) [
          | some change ↦ set_opts change p
          | none ↦ switch_local libc ch optarg p
        ])) [ some change ↦ (m, refl, refl) | none ↦ switch_local-Kept ch number ]

  switch_named-Kept : (name : NamedOption) → Ends (Kept p) (switch_named libc name optarg p)
  unfolding switch_named set_opts with_opts
  switch_named-Kept named_ackmate_dir_filter =
      if-holds (Ends (Kept p)) (libc.compiles (required optarg)) _ (exited 2) (λ e. (m, refl, refl))
        (λ e. tt)
  switch_named-Kept named_color_line_number = (m, refl, refl)
  switch_named-Kept named_color_match = (m, refl, refl)
  switch_named-Kept named_color_path = (m, refl, refl)
  switch_named-Kept named_depth = (m, refl, refl)
  switch_named-Kept named_filename = (m, refl, refl)
  switch_named-Kept named_ignore = (m, refl, refl)
  switch_named-Kept named_ignore_dir = (m, refl, refl)
  switch_named-Kept named_no_filename = (m, refl, refl)
  switch_named-Kept named_nofilename = (m, refl, refl)
  switch_named-Kept named_no_pager = (m, refl, refl)
  switch_named-Kept named_nopager = (m, refl, refl)
  switch_named-Kept named_pager = (m, refl, refl)
  switch_named-Kept named_print_all_files = (m, refl, refl)
  switch_named-Kept named_silent = (m, refl, refl)
  switch_named-Kept named_stats_only = (m, refl, refl)
  switch_named-Kept named_workers = (m, refl, refl)

  pub switch_entry-Kept :
      (entry : Entry)
      → EntryHasNumber libc entry optarg
      → Ends (Kept p) (switch_entry libc entry optarg p)
  unfolding switch_entry set_opts with_opts
  switch_entry-Kept (sets_opts change) h = (m, refl, refl)
  switch_entry-Kept (sets_group group) h = (m, refl, refl)
  switch_entry-Kept lists_file_types h = (m, refl, refl)
  switch_entry-Kept asks_version h = (m, refl, refl)
  switch_entry-Kept sets_useless h = (m, refl, refl)
  switch_entry-Kept (short_for ch) h = switch_short-Kept ch h
  switch_entry-Kept (by_name named) h = switch_named-Kept named
