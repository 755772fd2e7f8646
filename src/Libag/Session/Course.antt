-- ===== src/Libag/Session/Course.antt =====
-- Searches one after the other in one session, and its end. What `setup_search` prepares for a query
-- is not part of it: a query for which that does not come to its end has no search here.
use libag.Common.{ℕ, ◌<◌, ◌≡◌, true, false, some, [], done, fault, ◌>>=◌, arith}
use libag.Common.Int.{pos_part}
use libag.Cstr.{Str}
use libag.Util.Chars.{is_regex}
use libag.Libag.Session.{
  Session, Options, Machine, live, no_workers, Status, all_fine, release, ag_set_config,
  ag_stop_workers, start_threads, ag_start_workers, ag_finish, init_session, ag_init_config,
  ag_init, setup_search,
}
use libag.Libag.Session.Laws.{IsReady}
use libag.Libag.Session.Search.{Answer, is_onsearch, run_search, start_and_search, ag_search}

-- The options of a search for a query in a session.
abbrev pub search_options : Str → Session → Options
search_options query s =
    setup_search (record (s.opts) { query = query; casing = pos_part s.config.casing })

module _ (search_all : Options → Answer) (machine : Machine) where
  abbrev pub searched : Str → Session → Session
  searched query s = record s {
    opts = record (search_options query s) { query = [] };
    done_adding_files = false;
  }

  -- In a ready session a search returns what is found for its options, and leaves it ready.
  pub ag_search-ready :
      (query : Str) (npaths : ℕ) (s : Session)
      → IsReady s
      → is_onsearch s.config.workers_behavior ≡ false
      → 0 < npaths
      → ag_search search_all machine (some query) true npaths s
        ≡ done (searched query s, search_all (search_options query s))
  unfolding ag_search start_and_search run_search
  ag_search-ready query npaths s ready manual paths = ground arith

  searched-IsReady : (query : Str) (s : Session) → IsReady s → IsReady (searched query s)
  searched-IsReady query s ready = record {
    initialized = ready.initialized;
    threads = ready.threads;
    patterns_live = ready.patterns_live;
    strings_live = ready.strings_live;
  }

  -- `setup_search` sets `literal` for a query without special characters and never clears it: in the
  -- search after it every query, with special characters or not, is taken literally.
  pub literal_stays :
      (first second : Str) (n m : ℕ) (s : Session)
      → IsReady s
      → is_onsearch s.config.workers_behavior ≡ false
      → 0 < n
      → 0 < m
      → is_regex first ≡ false
      → (o : Options) × (o.literal ≡ true)
        × ((ag_search search_all machine (some first) true n s >>= λ r.
              ag_search search_all machine (some second) true m r.0)
            ≡ done (record (searched first s) { opts = record o { query = [] } }, search_all o))
  literal_stays first second n m s ready manual p q plain = (
    search_options second (searched first s),
    unfold setup_search in ground arith,
    rw (ag_search-ready first n s ready manual p)
        (ag_search-ready second m (searched first s) (searched-IsReady first s ready) manual q),
  )

  -- If the threads are started for each search, the first search releases `root_ignores` with them,
  -- and the second reads what has been released.
  pub onsearch_fault :
      (first second : Str) (n m : ℕ) (s : Session)
      → s.has_ag_init ≡ true
      → s.workers ≡ no_workers
      → s.root_ignores ≡ live
      → is_onsearch s.config.workers_behavior ≡ true
      → machine.startup ≡ all_fine
      → 0 < n
      → (ag_search search_all machine (some first) true n s >>= λ r.
          ag_search search_all machine (some second) true m r.0)
        ≡ fault
  unfolding ag_search start_and_search run_search ag_start_workers start_threads ag_stop_workers
      release
  onsearch_fault first second n m s init idle patterns onsearch fine paths = ground arith

-- A second `ag_finish` releases the strings of the options again.
pub ag_finish_twice : (s : Session) → IsReady s → (ag_finish s >>= λ r. ag_finish r.0) ≡ fault
unfolding ag_finish ag_stop_workers release
ag_finish_twice s ready = ground arith

-- `ag_init` leaves the library's copy of the configuration as it was: after an earlier session with
-- a configuration of its own it does not set up the defaults.
pub config-ag_init :
    (machine : Machine) (s : Session) {s' : Session} {status : Status}
    → ag_init machine s ≡ done (s', status)
    → s'.config ≡ s.config
unfolding ag_init ag_init_config init_session ag_set_config ag_start_workers start_threads ag_finish
    ag_stop_workers release
config-ag_init machine s h = ground arith
