-- ===== src/Tests/Session.antt =====
-- The results of a thread, and sessions from start to end.
use libag.Common.{
  length, ℕ, ◌≤◌, ◌≡◌, refl, true, false, not, none, some, List, [], ◌∷◌, if◌then◌else◌, fault,
  ◌>>=◌, Ensures, arith,
}
use libag.Common.Int.{pos, pos_part}
use libag.Cstr.{Str, has_any}
use libag.Util.Chars.{is_regex}
use libag.Libag.Results.{
  get_thrd_results, Match, text_file, ThrdResult, Memory, add_local_result, copy_bytes,
  copy_matches, grow, store_result,
}
use libag.Libag.Results.Added.{IsValid, owed, Appends, add_local_result-Appends}
use libag.Libag.Results.Joined.{or_null, joined, get_thrd_results-joined}
use libag.Libag.Session.{
  Session, AgConfig, Options, Machine, no_workers, running, null, live, ok, failed, all_fine,
  init_options, ag_set_config, count_workers, num_workers_max, ag_finish, ag_init_config, ag_init,
  set_behind, start_threads, ag_start_workers, release, ag_stop_workers, init_session,
}
use libag.Libag.Session.Search.{Answer, is_onsearch, ag_search}
use libag.Libag.Session.Laws.{accepted, ag_set_config_lem, count_workers_bounds, IsReady}
use libag.Libag.Session.Course.{onsearch_fault}

program : Unit {0}
unfolding copy_bytes copy_matches grow store_result add_local_result is_regex has_any is_onsearch
    ag_set_config set_behind accepted count_workers init_options start_threads ag_start_workers
    release ag_stop_workers init_session ag_init_config ag_init ag_finish
program = tt

-- A full array of one cell.
abbrev slot : ThrdResult
slot = record {
  capacity = 1;
  results = record { file = b'f' ∷ []; matches = []; flags = text_file } ∷ [];
}

slot-IsValid : IsValid slot
slot-IsValid = record { room = omega arith; some_room = omega arith }

abbrev buf : List ℕ
buf = b'a' ∷ (b'b' ∷ (b'c' ∷ []))

abbrev plenty : Memory
plenty n = true

abbrev hit : Match
hit = record { start = 1; end = 3 }

add_local_result-Appends_example :
    Ensures
      (Appends slot (owed (b'g' ∷ []) (hit ∷ []) buf text_file))
      (add_local_result plenty slot (b'g' ∷ []) (hit ∷ []) buf text_file)
add_local_result-Appends_example =
    add_local_result-Appends buf (omega arith) (b'g' ∷ []) text_file plenty slot (hit ∷ [])
      slot-IsValid ((omega arith, omega arith), tt)

abbrev config : AgConfig
config = record {
  literal = false;
  disable_recurse_dir = false;
  casing = pos 1;
  num_workers = pos 2;
  workers_behavior = pos 0;
  stats = false;
  search_binary_files = false;
}

abbrev on_search : AgConfig
on_search = record config { workers_behavior = pos 2 }

abbrev machine : Machine
machine = record { num_cores = pos 4; startup = all_fine }

abbrev fresh : Session
fresh = record {
  has_ag_init = false;
  workers = no_workers;
  config = config;
  opts = init_options;
  option_strings = null;
  root_ignores = null;
  done_adding_files = false;
  stop_workers = false;
}

abbrev set_up : Session
set_up = record fresh {
  has_ag_init = true;
  workers = running 2;
  option_strings = live;
  root_ignores = live;
}

set_up-IsReady : IsReady set_up
set_up-IsReady = record {
  initialized = refl;
  threads = (omega arith, omega arith);
  patterns_live = refl;
  strings_live = refl;
}

abbrev nothing : Options → Answer
nothing o = (none, 0)

-- "a.b" and "ab"
abbrev regex_query : Str
regex_query = b'a' ∷ (b'.' ∷ (b'b' ∷ []))

abbrev plain_query : Str
plain_query = b'a' ∷ (b'b' ∷ [])

onsearch_fault_example :
    (ag_search nothing machine
        (some plain_query)
        true
        1
        (record set_up { config = on_search; workers = no_workers })
      >>= λ r. ag_search nothing machine (some plain_query) true 1 r.0)
    ≡ fault
unfolding program
onsearch_fault_example =
    onsearch_fault nothing machine plain_query plain_query 1 1
      (record set_up { config = on_search; workers = no_workers }) refl refl refl refl refl
      (omega arith)

ag_set_config_lem_example :
    let (s', status) = ag_set_config (some on_search) fresh in
    (status ≡ (if accepted on_search then ok else failed))
    × (s'.config ≡ (if accepted on_search then on_search else fresh.config))
    × (s'.opts.literal ≡ on_search.literal)
    × (s'.opts.recurse_dirs ≡ not on_search.disable_recurse_dir)
    × (s'.opts.workers
        ≡ (if accepted on_search then pos_part on_search.num_workers else fresh.opts.workers))
ag_set_config_lem_example = ag_set_config_lem on_search fresh

count_workers_bounds_example :
    (1 ≤ count_workers (pos 4) fresh.opts) × (count_workers (pos 4) fresh.opts ≤ num_workers_max)
unfolding program
count_workers_bounds_example = count_workers_bounds (pos 4) fresh.opts (omega arith)

get_thrd_results-joined_example :
    get_thrd_results true (slot ∷ (slot ∷ []))
    ≡ (or_null (joined (slot ∷ (slot ∷ []))), length (joined (slot ∷ (slot ∷ []))))
get_thrd_results-joined_example = get_thrd_results-joined (slot ∷ (slot ∷ []))
