-- ===== src/Libag/WorkQueue/Course.antt =====
-- Every step of the caller's thread keeps the invariant.
use libag.Common.{
  ℕ, ◌<◌, ◌≡◌, refl, sym, ap, ◌∙◌, subst, true, false, List, [], ◌∷◌, ◌++◌, map, All, All-map,
  length, length-map, arith,
}
use libag.Cstr.{Str}
use libag.Libag.Results.{AgResult}
use libag.Libag.WorkQueue.{
  Phase, woken_phase, woken, Signal, asleep, searching, ready, at_done, at_results, gone, Worker,
  Found, queued, own_file, Master, outside, adding, waiting_done, collecting, waiting_results,
  stopping, joined, State, enter, emptied, slots,
}
use libag.Libag.WorkQueue.Sums.{
  tally, tally-append, in_files, in_found, in_phase, in_workers, tally-in_files-append, pending,
}
use libag.Libag.WorkQueue.Wakes.{length-Signal, All-Signal, All-woken, tally-Signal, tally-woken}
use libag.Libag.WorkQueue.Inv.{Allowed, HasNoSlot, Inv}

All-enter :
    (P : Phase → Type 0) (ph : Phase) (ts : List Worker)
    → P ph
    → All (λ (t : Worker). P t.phase) (map (enter ph) ts)
All-enter P ph [] p = tt
All-enter P ph (t ∷ ts) p = (p, All-enter P ph ts p)

All-emptied :
    (P : Phase → Type 0) (ts : List Worker)
    → All (λ (t : Worker). P t.phase) ts
    → All (λ (t : Worker). P t.phase) (map emptied ts)
All-emptied P [] h = tt
All-emptied P (t ∷ ts) h = (h.0, All-emptied P ts h.1)

emptied-HasNoSlot : (ts : List Worker) → HasNoSlot (map emptied ts)
emptied-HasNoSlot [] = tt
emptied-HasNoSlot (t ∷ ts) = (refl, emptied-HasNoSlot ts)

enter-HasNoSlot : (ph : Phase) (ts : List Worker) → HasNoSlot ts → HasNoSlot (map (enter ph) ts)
enter-HasNoSlot ph [] h = tt
enter-HasNoSlot ph (t ∷ ts) h = (h.0, enter-HasNoSlot ph ts h.1)

module _ (search_file : Str → List AgResult) (files : List Found) where
  abbrev Kept : Master → State → Type 0
  Kept m s = Inv search_file files m s

  -- Workers that hold no file hold what is in their slots.
  tally-in_workers_idle :
      (w : AgResult → ℕ) (ts : List Worker) (ph : Phase)
      → in_phase search_file ph ≡ []
      → All (λ (t : Worker). t.phase ≡ ph) ts
      → tally w (in_workers search_file ts) ≡ tally w (slots ts)
  unfolding in_workers tally
  tally-in_workers_idle w [] ph e h = refl
  tally-in_workers_idle w (t ∷ ts) ph e h = omega (
    arith,
    tally-append w (t.slot ++ in_phase search_file t.phase) (in_workers search_file ts),
    tally-append w t.slot (in_phase search_file t.phase),
    tally-append w t.slot (slots ts),
    ap (tally w) (ap (in_phase search_file) h.0 ∙ e),
    tally-in_workers_idle w ts ph e h.1,
  )

  slots-enter : (ph : Phase) (ts : List Worker) → slots (map (enter ph) ts) ≡ slots ts
  slots-enter ph [] = refl
  slots-enter ph (t ∷ ts) = ap (λ l. t.slot ++ l) (slots-enter ph ts)

  same_phase :
      (m : Master) (q : List Str) (ph : Phase) (ts : List Worker)
      → ((p : Phase) → Allowed m q p → p ≡ ph)
      → All (λ (t : Worker). Allowed m q t.phase) ts
      → All (λ (t : Worker). t.phase ≡ ph) ts
  same_phase m q ph ts only h =
      All-map (λ (t : Worker). Allowed m q t.phase) (λ (t : Worker). t.phase ≡ ph) ts
        (λ t a. only t.phase a) h

  module _ (s : State) where
    adding_queue :
        (m : Master) (q : List Str) (p : Phase) (rest rest' : List Found) (r : List Str)
        → Allowed (adding rest) q p
        → Allowed (adding rest') r p
    adding_queue m q p rest rest' r a = ground arith

    pub add_queued-Inv :
        (path : Str) (rest : List Found) (ts : List Worker)
        → Signal s.workers ts
        → Kept (adding (queued path ∷ rest)) s
        → Kept
            (adding rest)
            (record s { master = adding rest; queue = s.queue ++ (path ∷ []); workers = ts })
    unfolding pending in_files in_found tally
    add_queued-Inv path rest ts signal inv = record {
      at = refl;
      phases = All-Signal (Allowed (adding rest) (s.queue ++ (path ∷ []))) signal tt (
          All-map (λ (t : Worker). Allowed (adding (queued path ∷ rest)) s.queue t.phase)
            (λ (t : Worker). Allowed (adding rest) (s.queue ++ (path ∷ [])) t.phase) s.workers
            (λ t a.
              adding_queue (adding rest) s.queue t.phase (queued path ∷ rest) rest
                (s.queue ++ (path ∷ [])) a)
            inv.phases);
      some_worker = omega (arith, inv.some_worker, length-Signal signal);
      closed = inv.closed;
      stopped = inv.stopped;
      accounts = λ w. omega (
        arith,
        inv.accounts w,
        tally-Signal search_file w signal,
        tally-in_files-append search_file w s.queue (path ∷ []),
        tally-append w (search_file path) [],
        tally-append w (search_file path) (in_found search_file rest),
      );
    }

    pub add_own-Inv :
        (path : Str) (rest : List Found)
        → Kept (adding (own_file path ∷ rest)) s
        → Kept
            (adding rest)
            (record s { master = adding rest; own_slot = s.own_slot ++ search_file path })
    unfolding pending in_files in_found tally
    add_own-Inv path rest inv = record {
      at = refl;
      phases =
          All-map (λ (t : Worker). Allowed (adding (own_file path ∷ rest)) s.queue t.phase)
            (λ (t : Worker). Allowed (adding rest) s.queue t.phase) s.workers
            (λ t a.
              adding_queue (adding rest) s.queue t.phase (own_file path ∷ rest) rest s.queue a)
            inv.phases;
      some_worker = inv.some_worker;
      closed = inv.closed;
      stopped = inv.stopped;
      accounts = λ w. omega (
        arith,
        inv.accounts w,
        tally-append w s.own_slot (search_file path),
        tally-append w (search_file path) (in_found search_file rest),
      );
    }

    -- After a broadcast nobody waits.
    woken_phases :
        (q : List Str) (p : Phase)
        → Allowed (adding []) q p
        → Allowed waiting_done q (woken_phase p)
    woken_phases q ready a = tt
    woken_phases q asleep a = tt
    woken_phases q (searching path) a = tt
    woken_phases q at_done a = absurd a
    woken_phases q at_results a = absurd a
    woken_phases q gone a = absurd a

    pub close-Inv :
        Kept (adding []) s
        → Kept waiting_done (record s {
          master = waiting_done;
          done_adding_files = true;
          workers = map woken s.workers;
        })
    unfolding pending
    close-Inv inv = record {
      at = refl;
      phases =
          All-woken (Allowed (adding []) s.queue) (Allowed waiting_done s.queue) s.workers
            (woken_phases s.queue) inv.phases;
      some_worker = omega (arith, inv.some_worker, length-map {0, 0} woken s.workers);
      closed = refl;
      stopped = inv.stopped;
      accounts = λ w. omega (arith, inv.accounts w, tally-woken search_file w s.workers);
    }

    -- Once a worker is at `worker_done` the queue is empty.
    empty_queue :
        (ts : List Worker)
        → 0 < length ts
        → All (λ (t : Worker). Allowed waiting_done s.queue t.phase) ts
        → All (λ (t : Worker). t.phase ≡ at_done) ts
        → s.queue ≡ []
    empty_queue [] lt h k = absurd (omega arith)
    empty_queue (t ∷ ts) lt h k = subst (Allowed waiting_done s.queue) k.0 h.0

    pub meet_done-Inv :
        Kept waiting_done s
        → All (λ (t : Worker). t.phase ≡ at_done) s.workers
        → Kept collecting
            (record s { master = collecting; workers = map (enter at_results) s.workers })
    unfolding pending in_files in_found tally
    meet_done-Inv inv all_there = record {
      at = refl;
      phases = All-enter (Allowed collecting s.queue) at_results s.workers tt;
      some_worker = omega (arith, inv.some_worker, length-map {0, 0} (enter at_results) s.workers);
      closed = inv.closed;
      stopped = inv.stopped;
      accounts = (
        λ w. omega (
          arith,
          inv.accounts w,
          tally-in_workers_idle w s.workers at_done refl all_there,
          tally-in_workers_idle w (map (enter at_results) s.workers) at_results refl
              (All-enter (λ p. p ≡ at_results) at_results s.workers refl),
          ap (tally w) (slots-enter at_results s.workers),
        ),
        empty_queue s.workers inv.some_worker inv.phases all_there,
      );
    }

    collecting_phase : (q : List Str) (p : Phase) → Allowed collecting q p → p ≡ at_results
    collecting_phase q p a = ground arith

    pub collect-Inv :
        Kept collecting s
        → Kept waiting_results (record s {
          master = waiting_results;
          result = slots s.workers ++ s.own_slot;
          workers = map emptied s.workers;
          own_slot = [];
          done_adding_files = false;
        })
    unfolding pending in_files in_found tally
    collect-Inv inv = record {
      at = refl;
      phases = All-emptied (Allowed waiting_results s.queue) s.workers (
          All-map (λ (t : Worker). Allowed collecting s.queue t.phase)
            (λ (t : Worker). Allowed waiting_results s.queue t.phase) s.workers
            (λ t a. ground arith) inv.phases);
      some_worker = omega (arith, inv.some_worker, length-map {0, 0} emptied s.workers);
      closed = refl;
      stopped = inv.stopped;
      accounts = record {
        no_file = inv.accounts.1;
        no_own = refl;
        no_slot = emptied-HasNoSlot s.workers;
        sums = λ w. omega (
          arith,
          inv.accounts.0 w,
          tally-append w (slots s.workers) s.own_slot,
          tally-in_workers_idle w s.workers at_results refl (
              same_phase collecting s.queue at_results s.workers (collecting_phase s.queue)
                inv.phases),
          ap (λ l. tally w (in_files search_file l)) inv.accounts.1,
        );
      };
    }

    pub meet_results-Inv :
        Kept waiting_results s
        → Kept outside (record s { master = outside; workers = map (enter ready) s.workers })
    meet_results-Inv inv = record {
      at = refl;
      phases = All-enter (Allowed outside s.queue) ready s.workers tt;
      some_worker = omega (arith, inv.some_worker, length-map {0, 0} (enter ready) s.workers);
      closed = inv.closed;
      stopped = inv.stopped;
      accounts = record {
        no_file = inv.accounts.no_file;
        no_own = inv.accounts.no_own;
        no_slot = enter-HasNoSlot ready s.workers inv.accounts.no_slot;
        sums = inv.accounts.sums;
      };
    }

    pub join-Inv :
        Kept stopping s
        → All (λ (t : Worker). t.phase ≡ gone) s.workers
        → Kept joined (record s { master = joined })
    join-Inv inv all_gone = record {
      at = refl;
      phases =
          All-map (λ (t : Worker). t.phase ≡ gone) (λ (t : Worker). Allowed joined s.queue t.phase)
            s.workers (λ t e. subst (Allowed joined s.queue) (sym e) tt) all_gone;
      some_worker = inv.some_worker;
      closed = inv.closed;
      stopped = inv.stopped;
      accounts = record {
        no_file = inv.accounts.no_file;
        no_own = inv.accounts.no_own;
        no_slot = inv.accounts.no_slot;
        sums = inv.accounts.sums;
      };
    }
