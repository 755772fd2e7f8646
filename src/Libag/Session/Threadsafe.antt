-- ===== src/Libag/Session/Threadsafe.antt =====
-- `ag_search_ts` and `ag_get_stats` of libag.c. The mutex of the searches is set up by
-- `ag_start_workers` and destroyed by `ag_stop_workers`, so that it is usable just while there are
-- workers. That it keeps two searches apart is not modelled: one thread calls.
use libag.Common.{
  ℕ, zero, suc, ◌≡◌, Bool, true, false, ◌&&◌, ◌||◌, Option, none, some, List, if◌then◌else◌, Run,
  done, fault, ◌>>=◌, arith,
}
use libag.Common.Int.{ℤ, pos, negsuc}
use libag.Cstr.{Str}
use libag.Libag.Results.{AgResult}
use libag.Libag.Session.{
  Session, Options, Machine, Workers, no_workers, running, dangling, AgConfig,
}
use libag.Libag.Session.Search.{Answer, is_onsearch, ag_search}
use libag.Search.Buffer.{Stats}

-- Whether `search_mtx` can be locked and unlocked.
unfoldable pub search_mtx : Workers → Bool
search_mtx no_workers = false
search_mtx (running n) = true
search_mtx dangling = false

unfoldable pub has_workers : Workers → Bool
has_workers no_workers = false
has_workers (running n) = true
has_workers dangling = true

-- The list, with what goes through `nresults`, where it is written.
abbrev pub TsAnswer : Type 0
TsAnswer = Option (List AgResult) × Option ℕ

abbrev refused : TsAnswer
refused = (none, none)

module _ (search_all : Options → Answer) (machine : Machine) where
  -- The search with `search_mtx` held. A mutex that is not set up, or that the search has destroyed, is
  -- an access to no object.
  unfoldable pub locked_search : Str → ℕ → Session → Run (Session × TsAnswer)
  locked_search query npaths s =
      let searched : Run (Session × TsAnswer) =
        ag_search search_all machine (some query) true npaths s >>= λ r.
        if search_mtx r.0.workers then done (r.0, (r.1.0, some r.1.1)) else fault in
      if search_mtx s.workers then searched else fault

  -- `none` is a query that is NULL; the Booleans say whether `target_paths` and `nresults` are not.
  unfoldable pub ag_search_ts : Option Str → Bool → Bool → ℤ → Session → Run (Session × TsAnswer)
  ag_search_ts none target_paths nresults npaths s = done (s, refused)
  ag_search_ts (some query) target_paths nresults (negsuc n) s = done (s, refused)
  ag_search_ts (some query) target_paths nresults (pos zero) s = done (s, refused)
  ag_search_ts (some query) target_paths nresults (pos (suc n)) s =
      if s.has_ag_init && (target_paths && nresults)
      then if has_workers s.workers || is_onsearch s.config.workers_behavior
        then locked_search query (suc n) s
        else done (s, refused)
      else done (s, refused)

-- `none` is a return of -1.
unfoldable pub ag_get_stats : AgConfig → Stats → Option Stats
ag_get_stats config stats = if config.stats then some stats else none

module _ (search_all : Options → Answer) (machine : Machine) where
  -- With threads that are started for each search, it uses a mutex that is not set up.
  pub ag_search_ts-onsearch :
      (query : Str) (n : ℕ) (s : Session)
      → s.has_ag_init ≡ true
      → s.workers ≡ no_workers
      → is_onsearch s.config.workers_behavior ≡ true
      → ag_search_ts search_all machine (some query) true true (pos (suc n)) s ≡ fault
  unfolding ag_search_ts locked_search search_mtx has_workers
  ag_search_ts-onsearch query n s init idle onsearch = ground (arith)
