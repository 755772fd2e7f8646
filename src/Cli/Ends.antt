-- ===== src/Cli/Ends.antt =====
-- How `parse_options` of ag_src/options.c ends behind its loop.
use libag.Common.{
  ℕ, ◌≡◌, ◌≢◌, Bool, true, false, not, ◌&&◌, ◌||◌, Option, none, some, List, [], ◌∷◌, map, All,
  length, ◌==◌, if◌then◌else◌, refl, arith, take,
}
use libag.Cstr.{Str}
use libag.Util.Chars.{is_regex}
use libag.Lang.{ext_capacity}
use libag.Lang.Regex.{make_lang_regex-alternatives}
use libag.Lang.Combine.{HasSome, joined_exts, combine_file_extensions-take}
use libag.Cli.{CliOptions, Parser, going, exited, ◌and_then◌}
use libag.Cli.Switch.{Libc, with_opts}
use libag.Cli.Settle.{
  Around, Settled, settle_casing, compile_regex, pager_fails, compile_file_search, compile_types,
  of_run, early_exits, home_ignores, default_excludes, ask_git, with_query, git_ignores,
  excludes_file, take_query, take_paths, settle_query, settle, is_empty,
}
use libag.Cli.Output.{settle_output}
use libag.Cli.Settled.{
  Ends, Ends-and_then, if-holds, true_not_false, IsConsistent, settle_output-IsConsistent,
  HasCasing, settle_casing-HasCasing, settle_output-HasCasing,
}

-- What the options promise to the search.
pub record IsSettled (around : Around) (r : Settled) : Type 0 where
  pub consistent : IsConsistent r.opts
  pub cased : HasCasing r.opts
  pub asked : length r.opts.query ≢ 0
  pub literal : is_regex r.opts.query ≡ false → r.opts.literal ≡ true
  pub streamed : r.opts.search_stream ≡ true → r.targets ≡ take_paths around []

-- An option that takes no query needs none.
abbrev pub MayNeedQuery : Parser → Type 0
MayNeedQuery p = p.accepts_query ≡ false → p.needs_query ≡ false

abbrev Ready : Parser → Type 0
Ready p = HasCasing p.opts × MayNeedQuery p

module _ (libc : Libc) (around : Around) (argv : List Str) where
  compile_regex-Ready :
      (regex : Str) (caseless : Bool) (p : Parser)
      → Ready p
      → Ends Ready (compile_regex libc regex caseless p)
  unfolding compile_regex with_opts
  compile_regex-Ready regex caseless p r =
      if-holds (Ends Ready) (libc.compiles regex) _ (exited 2) (λ h. r) (λ h. tt)

  compile_file_search-Ready : (p : Parser) → Ready p → Ends Ready (compile_file_search libc p)
  unfolding compile_file_search
  compile_file_search-Ready p r =
      elim (p.file_search_source)
        as (λ s. Ends Ready (compile_file_search libc (record p { file_search_source = s }))) [
          | none ↦ r
          | some s ↦ compile_regex-Ready _ _ (record p { file_search_source = some s }) r
        ]

  each_HasSome :
      ((i : ℕ) → HasSome (around.lang_extensions i))
      → (is : List ℕ) → All HasSome (map around.lang_extensions is)
  each_HasSome langs [] = tt
  each_HasSome langs (i ∷ is) = (langs i, each_HasSome langs is)

  compile_types-Ready :
      ((i : ℕ) → HasSome (around.lang_extensions i))
      → (p : Parser) → Ready p
      → Ends Ready (compile_types libc around p)
  unfolding compile_types of_run
  compile_types-Ready langs p r =
      let extensions = map around.lang_extensions p.ext_index in
      if-holds (Ends Ready) (length p.ext_index == 0) (going p) _ (λ e. r)
        (λ e.
          rw
            (
              combine_file_extensions-take extensions (each_HasSome langs p.ext_index),
              make_lang_regex-alternatives (take ext_capacity (joined_exts extensions)),
            )
            (compile_regex-Ready _ false p r))

  abbrev Queried : Parser → Type 0
  Queried p = Ready p × ((p.needs_query && is_empty argv) ≡ false)

  early_exits-Queried : (p : Parser) → Ready p → Ends Queried (early_exits around argv p)
  unfolding early_exits
  early_exits-Queried p r =
      if-holds (Ends Queried) (pager_fails around p.opts.pager) (exited 1) _ (λ e. tt)
        (λ e.
          if-holds (Ends Queried) (p.help || (p.version || p.list_file_types)) (exited 0) _
            (λ e. tt)
            (λ e.
              if-holds (Ends Queried) (p.needs_query && is_empty argv) (exited 1) (going p)
                (λ e. tt) (λ e. (r, e))))

  home_ignores-Queried :
      (home : Option Str) (p : Parser) → Queried p → Queried (home_ignores home p)
  unfolding home_ignores
  home_ignores-Queried none p q = q
  home_ignores-Queried (some home) p q =
      if-holds Queried p.opts.search_all_files p _ (λ e. q) (λ e. q)

  -- There is a default file where HOME is set.
  default_excludes-going :
      (config_home home_dir : Option Str) (home : Str)
      → home_dir ≡ some home
      → Ends (λ file. Unit {0}) (default_excludes config_home home_dir)
  unfolding default_excludes
  default_excludes-going (some config) home_dir home e = tt
  default_excludes-going none (some h) home e = tt
  default_excludes-going none none home e = ground (arith, e)

  ask_git-Queried :
      (home : Str) (output : Option (List ℕ)) (p : Parser)
      → around.home_dir ≡ some home
      → Queried p
      → Ends Queried (ask_git around p output)
  unfolding ask_git excludes_file
  ask_git-Queried home none p e q = q
  ask_git-Queried home (some []) p e q =
      Ends-and_then (λ file. Unit {0}) Queried (default_excludes around.config_home around.home_dir)
        _ (default_excludes-going around.config_home around.home_dir home e) (λ file u. q)
  ask_git-Queried home (some (c ∷ output)) p e q = q

  git_ignores-Queried :
      (home : Str) (p : Parser)
      → around.home_dir ≡ some home
      → Queried p
      → Ends Queried (git_ignores around p)
  unfolding git_ignores
  git_ignores-Queried home p e q =
      if-holds (Ends Queried) p.opts.skip_vcs_ignores (going p) _ (λ s. q)
        (λ s. ask_git-Queried home around.git_output p e q)

  -- The options, once the query is there.
  with_query-IsSettled :
      (p : Parser) (o : CliOptions) (query : Str) (args : List Str)
      → IsConsistent o
      → HasCasing o
      → Ends (IsSettled around) (with_query around p o (some (query, args)))
  unfolding with_query is_empty
  with_query-IsSettled p o query args c h =
      if-holds (Ends (IsSettled around)) (length query == 0) (exited 1) _ (λ e. tt)
        (λ e. record {
          consistent = record {
            of_context = c.of_context;
            of_ackmate = λ a.
                ((c.of_ackmate a).0, no_stream (is_empty args) o.search_stream (c.of_ackmate a).1);
            of_vimgrep = λ v. (
              (c.of_vimgrep v).0,
              no_stream (is_empty args) o.search_stream (c.of_vimgrep v).1,
              (c.of_vimgrep v).2,
              (c.of_vimgrep v).3,
            );
            of_parallel = λ l. no_stream (is_empty args) o.search_stream (c.of_parallel l);
            of_stream = λ s. c.of_stream (stream_of (is_empty args) o.search_stream s);
          };
          cased = h;
          asked = ground (arith, e);
          literal = λ l. rw l refl;
          streamed = λ s. no_args args s;
        })
    where
      no_stream : (b c : Bool) → c ≡ false → (b && c) ≡ false
      no_stream b c e = ground (arith, e)

      stream_of : (b c : Bool) → (b && c) ≡ true → c ≡ true
      stream_of b c e = ground (arith, e)

      no_args :
          (args : List Str)
          → (is_empty args && o.search_stream) ≡ true
          → take_paths around args ≡ take_paths around []
      no_args [] s = refl
      no_args (arg ∷ args) s = ground (arith, s)

  taken-IsSettled :
      (p : Parser) (o : CliOptions) (args : List Str)
      → MayNeedQuery p
      → (p.needs_query && is_empty args) ≡ false
      → IsConsistent o
      → HasCasing o
      → Ends (IsSettled around) (with_query around p o (take_query p args))
  unfolding take_query is_empty
  taken-IsSettled p o [] m some_arg c h =
      if-holds (λ t. Ends (IsSettled around) (with_query around p o t)) p.needs_query none _
        (λ e. ground (arith, e, some_arg)) (λ e. with_query-IsSettled p o (b'.' ∷ []) [] c h)
  taken-IsSettled p o (arg ∷ args) m some_arg c h =
      if-holds (λ t. Ends (IsSettled around) (with_query around p o t)) p.accepts_query
        (some (if not p.needs_query && length arg == 0 then b'.' ∷ [] else arg, args)) _
        (λ e. with_query-IsSettled p o _ args c h)
        (λ e.
          if-holds (λ t. Ends (IsSettled around) (with_query around p o t)) p.needs_query none _
            (λ n. true_not_false p.needs_query n (m e))
            (λ n. with_query-IsSettled p o (b'.' ∷ []) (arg ∷ args) c h))

  -- Behind the loop over the options, with HOME set and an extension for each language, the process
  -- exits with a status or comes to settled options: the case is decided, there is a query, one that is
  -- no regular expression is searched literally, a context sets both sides, --vimgrep, --ackmate,
  -- --parallel and the search of a stream have the output that they need, and with a path no stream is
  -- searched. No part of it reads or writes outside an object.
  pub settle-IsSettled :
      (home : Str) (p : Parser)
      → around.home_dir ≡ some home
      → ((i : ℕ) → HasSome (around.lang_extensions i))
      → MayNeedQuery p
      → Ends (IsSettled around) (settle libc around argv p)
  unfolding settle settle_query with_opts
  settle-IsSettled home p e langs m =
      let cased = with_opts settle_casing p in
      let compiled = compile_file_search libc cased in
      let typed = compiled and_then (compile_types libc around) in
      let gone_on = typed and_then (early_exits around argv) in
      let ignoring = gone_on and_then (λ q. git_ignores around (home_ignores around.home_dir q)) in
      Ends-and_then Queried (IsSettled around) ignoring _
        (Ends-and_then Queried Queried gone_on _
          (Ends-and_then Ready Queried typed _
            (Ends-and_then Ready Ready compiled _
              (compile_file_search-Ready cased (settle_casing-HasCasing p.opts, m))
              (compile_types-Ready langs))
            early_exits-Queried)
          (λ q r.
            git_ignores-Queried home (home_ignores around.home_dir q) e
              (home_ignores-Queried around.home_dir q r)))
        (λ q r.
          taken-IsSettled q (settle_output q) argv r.0.1 r.1 (settle_output-IsConsistent q)
            (settle_output-HasCasing q r.0.0))
