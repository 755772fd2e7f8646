-- ===== src/Libag/WorkQueue/Answer.antt =====
-- What a search returns, under every interleaving.
use libag.Common.{
  ℕ, ◌<◌, ◌≡◌, refl, ap, subst, false, List, [], ◌∷◌, ◌++◌, All, All-map, length, arith,
}
use libag.Cstr.{Str}
use libag.Libag.Results.{AgResult}
use libag.Libag.WorkQueue.{
  Phase, ready, asleep, fall_asleep, Worker, Found, Master, outside, adding, State, call, Step,
  add_queued, add_own, close, take_file, finish_file, arrive, meet_done, collect, meet_results,
  leave, join, Steps, here, next,
}
use libag.Libag.WorkQueue.Sums.{
  tally, tally-append, in_files, in_found, in_phase, in_workers, pending,
}
use libag.Libag.WorkQueue.Inv.{Allowed, HasNoSlot, Inv}
use libag.Libag.WorkQueue.Kept.{
  fall_asleep-Inv, take_file-Inv, finish_file-Inv, arrive-Inv, leave-Inv,
}
use libag.Libag.WorkQueue.Course.{
  add_queued-Inv, add_own-Inv, close-Inv, meet_done-Inv, collect-Inv, meet_results-Inv, join-Inv,
}

-- Where a worker is between two searches.
abbrev pub Waits : Phase → Type 0
Waits ready = Unit
Waits asleep = Unit
Waits _ = ⊥

-- The library between two searches: the workers wait for files, and nothing is left over.
pub record IsIdle (s : State) : Type 0 where
  pub at : s.master ≡ outside
  pub all_wait : All (λ (t : Worker). Waits t.phase) s.workers
  pub some_worker : 0 < length s.workers
  pub no_file : s.queue ≡ []
  pub no_own : s.own_slot ≡ []
  pub no_slot : HasNoSlot s.workers
  pub opened : s.done_adding_files ≡ false
  pub running : s.stop_workers ≡ false

module _ (search_file : Str → List AgResult) where
  module _ (files : List Found) where
    abbrev pub Kept : State → Type 0
    Kept s = Inv search_file files s.master s

    -- The invariant at a known place of the caller's thread.
    Kept-at : {s : State} {m : Master} → s.master ≡ m → Kept s → Inv search_file files m s
    Kept-at {s} e inv = subst (λ m. Inv search_file files m s) e inv

    Step-Inv : {s t : State} → Step search_file s t → Kept s → Kept t
    Step-Inv (add_queued s path rest ts e signal) inv =
        add_queued-Inv search_file files s path rest ts signal (Kept-at e inv)
    Step-Inv (add_own s path rest e) inv = add_own-Inv search_file files s path rest (Kept-at e inv)
    Step-Inv (close s e) inv = close-Inv search_file files s (Kept-at e inv)
    Step-Inv (take_file s before after slot path rest e f) inv =
        take_file-Inv search_file files s before after slot s.master path rest e f inv
    Step-Inv (finish_file s before after slot path e) inv =
        finish_file-Inv search_file files s before after slot s.master path e inv
    Step-Inv (arrive s before after slot e f closed running) inv =
        arrive-Inv search_file files s before after slot s.master e f closed running inv
    Step-Inv (fall_asleep s before after slot e f opened) inv =
        fall_asleep-Inv search_file files s before after slot s.master e opened inv
    Step-Inv (meet_done s e all_there) inv =
        meet_done-Inv search_file files s (Kept-at e inv) all_there
    Step-Inv (collect s e) inv = collect-Inv search_file files s (Kept-at e inv)
    Step-Inv (meet_results s e all_there) inv = meet_results-Inv search_file files s (Kept-at e inv)
    Step-Inv (leave s before after slot e f closed stop) inv =
        leave-Inv search_file files s before after slot s.master e stop inv
    Step-Inv (join s e all_gone) inv = join-Inv search_file files s (Kept-at e inv) all_gone

    pub Steps-Inv : {n : ℕ} {s t : State} → Steps search_file n s t → Kept s → Kept t
    Steps-Inv (here s) inv = inv
    Steps-Inv (next n run step) inv = Step-Inv step (Steps-Inv run inv)

    Waits-empty : (p : Phase) → Waits p → in_phase search_file p ≡ []
    Waits-empty p h = ground (arith, h)

    no_slot_sum :
        (w : AgResult → ℕ) (ts : List Worker)
        → HasNoSlot ts
        → All (λ (t : Worker). Waits t.phase) ts
        → tally w (in_workers search_file ts) ≡ 0
    unfolding tally in_workers
    no_slot_sum w [] h k = refl
    no_slot_sum w (t ∷ ts) h k = omega (
      arith,
      tally-append w (t.slot ++ in_phase search_file t.phase) (in_workers search_file ts),
      tally-append w t.slot (in_phase search_file t.phase),
      ap (tally w) h.0,
      ap (tally w) (Waits-empty t.phase k.0),
      no_slot_sum w ts h.1 k.1,
    )

    called_phase : (q : List Str) (p : Phase) → Waits p → Allowed (adding files) q p
    called_phase q p h = ground (arith, h)

    pub call-Inv : (s : State) → IsIdle s → Kept (call files s)
    unfolding pending tally in_files
    call-Inv s idle = record {
      at = refl;
      phases =
          All-map (λ (t : Worker). Waits t.phase)
            (λ (t : Worker). Allowed (adding files) s.queue t.phase) s.workers
            (λ t h. called_phase s.queue t.phase h) idle.all_wait;
      some_worker = idle.some_worker;
      closed = idle.opened;
      stopped = idle.running;
      accounts = λ w. omega (
        arith,
        no_slot_sum w s.workers idle.no_slot idle.all_wait,
        ap (tally w) idle.no_own,
        ap (λ l. tally w (in_files search_file l)) idle.no_file,
      );
    }

    outside-Waits : (q : List Str) (p : Phase) → Allowed outside q p → Waits p
    outside-Waits q p a = ground (arith, a)

  -- Whatever the order of the steps: when `ag_search` returns, its result has what `search_file` finds
  -- in the files of the walk, each file's results once; and the library is idle again.
  pub search_result :
      (files : List Found) (n : ℕ) (s t : State)
      → IsIdle s
      → Steps search_file n (call files s) t
      → t.master ≡ outside
      → IsIdle t × ((w : AgResult → ℕ) → tally w t.result ≡ tally w (in_found search_file files))
  search_result files n s t idle run e = (
    record {
      at = e;
      all_wait =
          All-map (λ (t' : Worker). Allowed outside t.queue t'.phase)
            (λ (t' : Worker). Waits t'.phase) t.workers
            (λ t' a. outside-Waits files t.queue t'.phase a) inv.phases;
      some_worker = inv.some_worker;
      no_file = inv.accounts.no_file;
      no_own = inv.accounts.no_own;
      no_slot = inv.accounts.no_slot;
      opened = inv.closed;
      running = inv.stopped;
    },
    inv.accounts.sums,
  )
    where
      inv : Inv search_file files outside t
      inv = Kept-at files e (Steps-Inv files run (call-Inv files s idle))
