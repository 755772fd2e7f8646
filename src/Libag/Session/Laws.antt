-- ===== src/Libag/Session/Laws.antt =====
-- The configuration, and a session that starts its threads once.
use libag.Common.{
  ◌≤◌, ◌≡◌, refl, Bool, true, false, not, ◌&&◌, some, if◌then◌else◌, done, Returns, arith,
}
use libag.Common.Int.{ℤ, pos, pos_part, within, within-le}
use libag.Libag.Session.{
  Session, AgConfig, Options, Machine, live, Workers, no_workers, running, dangling, ok, failed,
  all_fine, num_workers_max, set_behind, ag_set_config, count_workers, start_threads,
  ag_start_workers, init_session, ag_init_config, init_options,
}

-- The casing is one of the three, and there are at most as many threads as result slots for them.
unfoldable pub accepted : AgConfig → Bool
accepted cfg = within cfg.casing 2 && within cfg.num_workers num_workers_max

-- `ag_set_config` returns 0 just for an accepted configuration, and keeps a copy of it just then;
-- a rejected one has still changed `literal` and `recurse_dirs`.
pub ag_set_config_lem :
    (cfg : AgConfig) (s : Session)
    → let (s', status) = ag_set_config (some cfg) s in
      (status ≡ (if accepted cfg then ok else failed))
      × (s'.config ≡ (if accepted cfg then cfg else s.config))
      × (s'.opts.literal ≡ cfg.literal)
      × (s'.opts.recurse_dirs ≡ not cfg.disable_recurse_dir)
      × (s'.opts.workers ≡ (if accepted cfg then pos_part cfg.num_workers else s.opts.workers))
unfolding ag_set_config set_behind accepted
ag_set_config_lem cfg s = ground arith

-- The number of threads, whatever the machine: at least one, and a slot of results for each.
pub count_workers_bounds :
    (num_cores : ℤ) (o : Options)
    → o.workers ≤ num_workers_max
    → (1 ≤ count_workers num_cores o) × (count_workers num_cores o ≤ num_workers_max)
unfolding count_workers
count_workers_bounds num_cores o h = ground arith

abbrev pub InSlots : Workers → Type 0
InSlots (running n) = (1 ≤ n) × (n ≤ num_workers_max)
InSlots no_workers = ⊥
InSlots dangling = ⊥

-- The library is set up, its threads run, and nothing that it points to has been released.
pub record IsReady (s : Session) : Type 0 where
  pub initialized : s.has_ag_init ≡ true
  pub threads : InSlots s.workers
  pub patterns_live : s.root_ignores ≡ live
  pub strings_live : s.option_strings ≡ live

-- The session after an accepted configuration.
abbrev configured : AgConfig → Session → Session
configured cfg s = record s {
  config = cfg;
  opts = record (s.opts) {
    literal = cfg.literal;
    recurse_dirs = not cfg.disable_recurse_dir;
    casing = pos_part cfg.casing;
    workers = pos_part cfg.num_workers;
    stats = cfg.stats;
    search_binary_files = cfg.search_binary_files;
  };
}

ag_set_config-accepted :
    (cfg : AgConfig) (s : Session)
    → accepted cfg ≡ true
    → ag_set_config (some cfg) s ≡ (configured cfg s, ok)
unfolding ag_set_config set_behind accepted
ag_set_config-accepted cfg s h = ground arith

accepted_workers :
    (cfg : AgConfig) → accepted cfg ≡ true → pos_part cfg.num_workers ≤ num_workers_max
unfolding accepted
accepted_workers cfg h = within-le cfg.num_workers num_workers_max (ground arith)

module _ (machine : Machine) (cfg : AgConfig) (s : Session) (fine : machine.startup ≡ all_fine)
    (acc : accepted cfg ≡ true) (behavior : cfg.workers_behavior ≡ pos 0)
    (fresh : s.has_ag_init ≡ false) (idle : s.workers ≡ no_workers) where
  abbrev base : Session
  base =
      configured cfg (record s { root_ignores = live; opts = init_options; option_strings = live })

  abbrev ready : Session
  ready = record base {
    has_ag_init = true;
    workers = running (count_workers machine.num_cores base.opts);
    done_adding_files = false;
    stop_workers = false;
  }

  init_session-ready : ag_init_config machine (some cfg) s ≡ done (ready, ok)
  unfolding ag_init_config init_session ag_start_workers start_threads
  init_session-ready = ground (
    arith,
    ag_set_config-accepted cfg
        (record s { root_ignores = live; opts = init_options; option_strings = live }) acc,
  )

  -- An accepted configuration that starts the threads, on a machine where all calls succeed: the
  -- session is ready and has the configuration.
  pub ag_init_config-IsReady :
      Returns
        (λ r. (r.1 ≡ ok) × IsReady r.0 × (r.0.config ≡ cfg))
        (ag_init_config machine (some cfg) s)
  ag_init_config-IsReady = rw init_session-ready (
    refl,
    record {
      initialized = refl;
      threads = count_workers_bounds machine.num_cores base.opts (accepted_workers cfg acc);
      patterns_live = refl;
      strings_live = refl;
    },
    refl,
  )
