-- ===== src/Libag/Session/Search.antt =====
-- `ag_search` and `ag_get_stats` of libag.c, as far as they turn on the state of the library.
use libag.Common.{
  ℕ, Bool, false, ◌&&◌, Option, none, some, List, [], ◌==◌, if◌then◌else◌, Run, done, fault, ◌>>=◌,
}
use libag.Common.Int.{ℤ, pos, negsuc, pos_part}
use libag.Cstr.{Str}
use libag.Libag.Results.{AgResult}
use libag.Libag.Session.{
  Session, Options, Machine, freed, no_workers, ok, failed, ag_start_workers, ag_stop_workers,
  setup_search,
}

-- What a search returns: the list or NULL, with what goes through `nresults`.
abbrev pub Answer : Type 0
Answer = Option (List AgResult) × ℕ

abbrev pub no_answer : Answer
no_answer = (none, 0)

-- `workers_behavior == LIBAG_ONSEARCH_WORKERS`
unfoldable pub is_onsearch : ℤ → Bool
is_onsearch (pos n) = n == 2
is_onsearch (negsuc n) = false

-- `search_all` is what the walk over the paths and the threads find, for the options of the search,
-- where `setup_search` comes back.
module _ (search_all : Options → Answer) where
  -- From "Prepare query." on. With no path `prepare_paths` returns before it stores the list, which
  -- is read all the same; with one `init_ignore` reads `root_ignores`.
  unfoldable pub run_search : Str → ℕ → Session → Run (Session × Answer)
  run_search query npaths s =
      let o = setup_search (record (s.opts) { query = query; casing = pos_part s.config.casing }) in
      let after = record s { opts = record o { query = [] }; done_adding_files = false } in
      let stopped : Run (Session × Answer) =
        ag_stop_workers after >>= λ r. done (r.0, search_all o) in
      let answered : Run (Session × Answer) =
        if is_onsearch s.config.workers_behavior then stopped else done (after, search_all o) in
      let with_patterns : Run (Session × Answer) =
        elim s.root_ignores as (λ _. Run (Session × Answer)) [ freed ↦ fault | _ ↦ answered ] in
      if npaths == 0 then fault else with_patterns

  -- "Check if workers already started or I should start them."
  unfoldable pub start_and_search : Machine → Str → ℕ → Session → Run (Session × Answer)
  start_and_search machine query npaths s =
      let on_search : Run (Session × Answer) = ag_start_workers machine s >>= λ r.
      elim r.1 as (λ _. Run (Session × Answer)) [
        | ok ↦ run_search query npaths r.0
        | failed ↦ done (r.0, no_answer)
      ] in
      elim s.workers as (λ _. Run (Session × Answer)) [
        | no_workers ↦
            if is_onsearch s.config.workers_behavior then on_search else done (s, no_answer)
        | _ ↦ run_search query npaths s
      ]

  -- `none` is a query that is NULL; `target_paths` says whether the list of paths is not.
  unfoldable pub ag_search : Machine → Option Str → Bool → ℕ → Session → Run (Session × Answer)
  ag_search machine none target_paths npaths s = done (s, no_answer)
  ag_search machine (some query) target_paths npaths s =
      if s.has_ag_init && target_paths
      then start_and_search machine query npaths s
      else done (s, no_answer)
