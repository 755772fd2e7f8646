-- ===== src/Libag/Session.antt =====
-- The life of the library in libag.c: configuration, worker threads, and the state that one
-- `ag_search` leaves for the next.
pub mod Search
pub mod Laws
pub mod Course
pub mod Threadsafe
use libag.Common.{
  ℕ, zero, suc, ◌+◌, ◌-◌, Bool, true, false, not, ◌&&◌, ◌||◌, Option, none, some, List, [], ◌∷◌,
  map, length, min, max, ltb, ◌==◌, if◌then◌else◌, Run, done, fault, ◌>>=◌,
}
use libag.Common.Int.{ℤ, pos, negsuc, pos_part, within}
use libag.Cstr.{Str, tolower}
use libag.Util.Chars.{is_regex, is_lowercase}

abbrev pub num_workers_max : ℕ
num_workers_max = 8

-- `enum case_behavior` of ag_src/options.h, by number.
abbrev pub case_smart : ℕ
case_smart = 0

abbrev pub case_sensitive : ℕ
case_sensitive = 1

abbrev pub case_insensitive : ℕ
case_insensitive = 2

abbrev pub case_default : ℕ
case_default = 4

-- `struct ag_config` of libag.h
pub record AgConfig : Type 0 where
  pub literal : Bool
  pub disable_recurse_dir : Bool
  pub casing : ℤ
  pub num_workers : ℤ
  pub workers_behavior : ℤ
  pub stats : Bool
  pub search_binary_files : Bool

-- The fields of `cli_options` that the library's layer writes.
pub record Options : Type 0 where
  pub literal : Bool
  pub recurse_dirs : Bool
  pub casing : ℕ
  pub workers : ℕ
  pub stats : Bool
  pub search_binary_files : Bool
  pub query : Str

-- A pointer to memory of the heap. A freed one is not reset by the code.
pub data Owned : Type 0 where
  null live freed : Owned

-- `workers` with `workers_len`.
pub data Workers : Type 0 where
  no_workers : Workers
  running : ℕ → Workers
  dangling : Workers

pub record Session : Type 0 where
  pub has_ag_init : Bool
  pub workers : Workers
  pub config : AgConfig
  pub opts : Options
  pub option_strings : Owned
  pub root_ignores : Owned
  pub done_adding_files : Bool
  pub stop_workers : Bool

pub data Status : Type 0 where
  ok failed : Status

-- `init_options` of ag_src/options.c
unfoldable pub init_options : Options
init_options = record {
  literal = false;
  recurse_dirs = true;
  casing = case_default;
  workers = 0;
  stats = false;
  search_binary_files = false;
  query = [];
}

-- The assignments of `ag_set_config` after the test of `casing`, and after that of `num_workers`.
unfoldable pub set_behind : AgConfig → Session → Session × Status
set_behind cfg s =
    if within cfg.num_workers num_workers_max
    then (
      record s {
        config = cfg;
        opts = record (s.opts) {
          workers = pos_part cfg.num_workers;
          stats = cfg.stats;
          search_binary_files = cfg.search_binary_files;
        };
      },
      ok,
    )
    else (s, failed)

unfoldable pub ag_set_config : Option AgConfig → Session → Session × Status
ag_set_config none s = (s, failed)
ag_set_config (some cfg) s =
    let first = record s {
      opts = record (s.opts) { literal = cfg.literal; recurse_dirs = not cfg.disable_recurse_dir };
    } in
    if within cfg.casing 2
    then set_behind cfg
        (record first { opts = record (first.opts) { casing = pos_part cfg.casing } })
    else (first, failed)

-- How `ag_start_workers` fares with the calls of the system.
pub data Startup : Type 0 where
  all_fine calloc_fails : Startup
  init_fails : Startup
  thread_fails : ℕ → Startup

pub record Machine : Type 0 where
  pub num_cores : ℤ
  pub startup : Startup

-- `workers_len`
unfoldable pub count_workers : ℤ → Options → ℕ
count_workers num_cores o =
    let by_cores = min (pos_part num_cores) 8 in
    let by_literal = if o.literal then by_cores - 1 else by_cores in
    let chosen = if o.workers == 0 then by_literal else o.workers in
    if ltb chosen 1 then 1 else chosen

-- The state of a pointer after the release of what it points to; releasing NULL does nothing, and a
-- second release of the same memory is a fault.
unfoldable pub release : Owned → Run Owned
release null = done null
release live = done freed
release freed = fault

-- `cleanup_ignore(root_ignores)` and `free(workers)`, where all threads can be joined.
unfoldable pub ag_stop_workers : Session → Run (Session × Status)
ag_stop_workers s = elim s.workers as (λ _. Run (Session × Status)) [
  | no_workers ↦ done (s, failed)
  | dangling ↦ fault
  | running n ↦ release s.root_ignores >>= λ patterns. done (
    record s {
      workers = no_workers;
      root_ignores = patterns;
      done_adding_files = true;
      stop_workers = true;
    },
    ok,
  )
]

-- The start itself, at `workers == NULL`. A failed initialization frees `workers` and keeps the
-- pointer; after a failed `pthread_create` the thread that was not created is joined.
unfoldable pub start_threads : Startup → ℕ → Session → Run (Session × Status)
start_threads all_fine n s = done (record s { workers = running n }, ok)
start_threads calloc_fails n s = done (s, failed)
start_threads init_fails n s = done (record s { workers = dangling }, failed)
start_threads (thread_fails i) n s = fault

unfoldable pub ag_start_workers : Machine → Session → Run (Session × Status)
ag_start_workers machine s = elim s.workers as (λ _. Run (Session × Status)) [
  | no_workers ↦
      start_threads machine.startup (count_workers machine.num_cores s.opts)
        (record s { done_adding_files = false; stop_workers = false })
  | _ ↦ done (s, failed)
]

-- `cleanup_options` releases the strings of the options, whether or not they are there still.
unfoldable pub ag_finish : Session → Run (Session × Status)
ag_finish s = release s.option_strings >>= λ strings.
    ag_stop_workers (record s { option_strings = strings }) >>= λ stopped.
    done (record (stopped.0) { has_ag_init = false }, ok)

-- The part of `ag_init_config` behind the possible `ag_finish`.
unfoldable pub init_session : Machine → Option AgConfig → Session → Run (Session × Status)
init_session machine cfg s =
    let configured =
      (ag_set_config cfg
        (record s { root_ignores = live; opts = init_options; option_strings = live })).0 in
    let started = ag_start_workers machine configured >>= λ r.
    elim r.1 as (λ _. Run (Session × Status)) [
      | ok ↦ done (record (r.0) { has_ag_init = true }, ok)
      | failed ↦ done (r.0, failed)
    ] in
    elim configured.config.workers_behavior as (λ _. Run (Session × Status)) [
      | pos zero ↦ started
      | _ ↦ done (record configured { has_ag_init = true }, ok)
    ]

unfoldable pub ag_init_config : Machine → Option AgConfig → Session → Run (Session × Status)
ag_init_config machine cfg s =
    let again : Run (Session × Status) =
      ag_finish s >>= λ finished. init_session machine cfg finished.0 in
    if s.has_ag_init then again else init_session machine cfg s

unfoldable pub ag_init : Machine → Session → Run (Session × Status)
ag_init machine s = ag_init_config machine none s >>= λ r. done (r.0, ok)

-- What `setup_search` does to the options, for the query that they hold. The tables that it fills are
-- those of `Util`; the crash of `generate_alpha_skip` on an empty query, the loop of `generate_hash` on
-- a full table and the exit of `compile_study` are not part of this.
unfoldable pub setup_search : Options → Options
setup_search o =
    let cased =
      if o.casing == case_smart
      then if is_lowercase o.query then case_insensitive else case_sensitive
      else o.casing in
    let literally = if not (is_regex o.query) then true else o.literal in
    record o {
      casing = cased;
      literal = literally;
      query = if literally && cased == case_insensitive then map tolower o.query else o.query;
    }
