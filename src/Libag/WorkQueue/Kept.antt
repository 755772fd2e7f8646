-- ===== src/Libag/WorkQueue/Kept.antt =====
-- Every step of the threads keeps the invariant.
use libag.Common.{◌≡◌, ap, subst, Bool, true, false, List, [], ◌∷◌, ◌++◌, All-map, arith}
use libag.Cstr.{Str}
use libag.Libag.Results.{AgResult}
use libag.Libag.WorkQueue.{
  Phase, ready, asleep, searching, at_done, gone, Worker, Found, Master, outside, adding,
  waiting_done, collecting, waiting_results, stopping, joined, State,
}
use libag.Libag.WorkQueue.Sums.{tally, tally-append, in_files, tally-in_workers-middle, pending}
use libag.Libag.WorkQueue.Inv.{
  Allowed, HasNoSlot, All-replace, IsPending, IsAnswered, Accounts, Inv, length-middle, sum_workers,
  middle_phases, middle_phase,
}

pub apart : {b : Bool} → b ≡ true → b ≡ false → ⊥
apart h k = ground arith

module _ (search_file : Str → List AgResult) (files : List Found) where
  abbrev Kept : Master → State → Type 0
  Kept m s = Inv search_file files m s

  -- A worker at `worker_done` has seen the queue empty, so what is allowed on a queue that is not empty
  -- is allowed on every queue.
  Allowed-queue :
      (m : Master) (path : Str) (q r : List Str) (ph : Phase)
      → Allowed m (path ∷ q) ph
      → Allowed m r ph
  Allowed-queue m path q r ph a = ground arith

  module _ (s : State) (before after : List Worker) (slot : List AgResult) where
    abbrev with_phase : Phase → List AgResult → List Worker
    with_phase ph sl = before ++ (record { phase = ph; slot = sl } ∷ after)

    -- The sums after a worker has taken a file.
    take-IsPending :
        (path : Str) (q : List Str) (rest : List Found)
        → s.workers ≡ with_phase ready slot
        → s.queue ≡ path ∷ q
        → IsPending search_file files rest s
        → IsPending search_file files rest
            (record s { queue = q; workers = with_phase (searching path) slot })
    unfolding pending in_files tally
    take-IsPending path q rest e f sums w = omega (
      arith,
      sums w,
      sum_workers search_file files s w before after (record { phase = ready; slot = slot }) e,
      tally-in_workers-middle search_file w before after
          (record { phase = searching path; slot = slot }),
      ap (λ l. tally w (in_files search_file l)) f,
      tally-append w (search_file path) (in_files search_file q),
    )

    -- A worker's step keeps the invariant if the new phase is allowed, and the accounts are kept.
    worker-Inv :
        (m : Master) (q : List Str) (ph new : Phase) (sl : List AgResult)
        → s.workers ≡ with_phase ph slot
        → Kept m s
        → ((p : Phase) → Allowed m s.queue p → Allowed m q p)
        → Allowed m q new
        → Accounts search_file files m (record s { queue = q; workers = with_phase new sl })
        → Kept m (record s { queue = q; workers = with_phase new sl })
    worker-Inv m q ph new sl e inv on_queue allowed acc = record {
      at = inv.at;
      phases =
          All-replace (λ (t : Worker). Allowed m q t.phase) before after
            (record { phase = ph; slot = slot }) (record { phase = new; slot = sl })
            (All-map (λ (t : Worker). Allowed m s.queue t.phase)
              (λ (t : Worker). Allowed m q t.phase) (with_phase ph slot) (λ t a. on_queue t.phase a)
              (middle_phases search_file files m s before after (record { phase = ph; slot = slot })
                inv e))
            (λ _. allowed);
      some_worker =
          length-middle search_file files s before after (record { phase = ph; slot = slot })
            (record { phase = new; slot = sl }) e;
      closed = inv.closed;
      stopped = inv.stopped;
      accounts = acc;
    }

    -- The worker's own phase is allowed.
    Allowed-here :
        (m : Master) (ph : Phase) → s.workers ≡ with_phase ph slot → Kept m s → Allowed m s.queue ph
    Allowed-here m ph e inv =
        middle_phase search_file files m s before after (record { phase = ph; slot = slot }) inv e

    cons_nil : {path : Str} {q : List Str} → s.queue ≡ path ∷ q → s.queue ≡ [] → ⊥
    cons_nil e f = ground arith

    pub take_file-Inv :
        (m : Master) (path : Str) (q : List Str)
        → s.workers ≡ with_phase ready slot
        → s.queue ≡ path ∷ q
        → Kept m s
        → Kept m (record s { queue = q; workers = with_phase (searching path) slot })
    take_file-Inv m path q e f inv =
        elim m
            as (λ k.
              Kept k s
              → Kept k (record s { queue = q; workers = with_phase (searching path) slot })) [
                | adding rest ↦ λ i.
                    worker-Inv (adding rest) q ready (searching path) slot e i
                      (λ p a.
                        Allowed-queue (adding rest) path q q p
                          (subst (λ l. Allowed (adding rest) l p) f a))
                      tt (take-IsPending path q rest e f i.accounts)
                | waiting_done ↦ λ i.
                    worker-Inv waiting_done q ready (searching path) slot e i
                      (λ p a.
                        Allowed-queue waiting_done path q q p
                          (subst (λ l. Allowed waiting_done l p) f a))
                      tt (take-IsPending path q [] e f i.accounts)
                | collecting ↦ λ i. absurd (cons_nil f i.accounts.1)
                | outside ↦ λ i. absurd (cons_nil f i.accounts.no_file)
                | waiting_results ↦ λ i. absurd (cons_nil f i.accounts.no_file)
                | stopping ↦ λ i. absurd (cons_nil f i.accounts.no_file)
                | joined ↦ λ i. absurd (cons_nil f i.accounts.no_file)
              ]
          inv

    finish-IsPending :
        (path : Str) (rest : List Found)
        → s.workers ≡ with_phase (searching path) slot
        → IsPending search_file files rest s
        → IsPending search_file files rest
            (record s { workers = with_phase ready (slot ++ search_file path) })
    unfolding pending tally
    finish-IsPending path rest e sums w = omega (
      arith,
      sums w,
      sum_workers search_file files s w before after
          (record { phase = searching path; slot = slot }) e,
      tally-in_workers-middle search_file w before after
          (record { phase = ready; slot = slot ++ search_file path }),
      tally-append w slot (search_file path),
    )

    pub finish_file-Inv :
        (m : Master) (path : Str)
        → s.workers ≡ with_phase (searching path) slot
        → Kept m s
        → Kept m (record s { workers = with_phase ready (slot ++ search_file path) })
    finish_file-Inv m path e inv =
        elim m
            as (λ k.
              Kept k s
              → Kept k (record s { workers = with_phase ready (slot ++ search_file path) })) [
                | adding rest ↦ λ i.
                    worker-Inv (adding rest) s.queue (searching path) ready
                      (slot ++ search_file path) e i (λ p a. a) tt
                      (finish-IsPending path rest e i.accounts)
                | waiting_done ↦ λ i.
                    worker-Inv waiting_done s.queue (searching path) ready
                      (slot ++ search_file path) e i (λ p a. a) tt
                      (finish-IsPending path [] e i.accounts)
                | collecting ↦ λ i. absurd (Allowed-here collecting (searching path) e i)
                | outside ↦ λ i. absurd (Allowed-here outside (searching path) e i)
                | waiting_results ↦ λ i. absurd (Allowed-here waiting_results (searching path) e i)
                | stopping ↦ λ i. absurd (Allowed-here stopping (searching path) e i)
                | joined ↦ λ i. absurd (Allowed-here joined (searching path) e i)
              ]
          inv

    -- What is answered does not depend on the phases.
    same_answer :
        (ph new : Phase)
        → s.workers ≡ with_phase ph slot
        → IsAnswered search_file files s
        → IsAnswered search_file files (record s { workers = with_phase new slot })
    same_answer ph new e answered = record {
      no_file = answered.no_file;
      no_own = answered.no_own;
      no_slot =
          All-replace (λ (t : Worker). t.slot ≡ []) before after
            (record { phase = ph; slot = slot }) (record { phase = new; slot = slot })
            (subst HasNoSlot e answered.no_slot) (λ a. a);
      sums = answered.sums;
    }

    -- A step between two phases without a file.
    arrive-IsPending :
        (rest : List Found)
        → s.workers ≡ with_phase ready slot
        → IsPending search_file files rest s
        → IsPending search_file files rest (record s { workers = with_phase at_done slot })
    unfolding pending tally
    arrive-IsPending rest e sums w = omega (
      arith,
      sums w,
      sum_workers search_file files s w before after (record { phase = ready; slot = slot }) e,
      tally-in_workers-middle search_file w before after (record { phase = at_done; slot = slot }),
    )

    pub arrive-Inv :
        (m : Master)
        → s.workers ≡ with_phase ready slot
        → s.queue ≡ []
        → s.done_adding_files ≡ true
        → s.stop_workers ≡ false
        → Kept m s
        → Kept m (record s { workers = with_phase at_done slot })
    arrive-Inv m e f closed running inv =
        elim m as (λ k. Kept k s → Kept k (record s { workers = with_phase at_done slot })) [
          | waiting_done ↦ λ i.
              worker-Inv waiting_done s.queue ready at_done slot e i (λ p a. a) f
                (arrive-IsPending [] e i.accounts)
          | adding rest ↦ λ i. absurd (apart closed i.closed)
          | outside ↦ λ i. absurd (apart closed i.closed)
          | waiting_results ↦ λ i. absurd (apart closed i.closed)
          | collecting ↦ λ i. absurd (Allowed-here collecting ready e i)
          | stopping ↦ λ i. absurd (apart i.stopped running)
          | joined ↦ λ i. absurd (apart i.stopped running)
        ]
          inv

    IsPending-asleep :
        (rest : List Found)
        → s.workers ≡ with_phase ready slot
        → IsPending search_file files rest s
        → IsPending search_file files rest (record s { workers = with_phase asleep slot })
    unfolding pending tally
    IsPending-asleep rest e sums w = omega (
      arith,
      sums w,
      sum_workers search_file files s w before after (record { phase = ready; slot = slot }) e,
      tally-in_workers-middle search_file w before after (record { phase = asleep; slot = slot }),
    )

    pub fall_asleep-Inv :
        (m : Master)
        → s.workers ≡ with_phase ready slot
        → s.done_adding_files ≡ false
        → Kept m s
        → Kept m (record s { workers = with_phase asleep slot })
    fall_asleep-Inv m e opened inv =
        elim m as (λ k. Kept k s → Kept k (record s { workers = with_phase asleep slot })) [
          | adding rest ↦ λ i.
              worker-Inv (adding rest) s.queue ready asleep slot e i (λ p a. a) tt
                (IsPending-asleep rest e i.accounts)
          | outside ↦ λ i.
              worker-Inv outside s.queue ready asleep slot e i (λ p a. a) tt
                (same_answer ready asleep e i.accounts)
          | waiting_done ↦ λ i. absurd (apart i.closed opened)
          | waiting_results ↦ λ i. absurd (Allowed-here waiting_results ready e i)
          | collecting ↦ λ i. absurd (apart i.closed opened)
          | stopping ↦ λ i. absurd (apart i.closed opened)
          | joined ↦ λ i. absurd (apart i.closed opened)
        ]
          inv

    pub leave-Inv :
        (m : Master)
        → s.workers ≡ with_phase ready slot
        → s.stop_workers ≡ true
        → Kept m s
        → Kept m (record s { workers = with_phase gone slot })
    leave-Inv m e stop inv =
        elim m as (λ k. Kept k s → Kept k (record s { workers = with_phase gone slot })) [
          | stopping ↦ λ i.
              worker-Inv stopping s.queue ready gone slot e i (λ p a. a) tt
                (same_answer ready gone e i.accounts)
          | waiting_done ↦ λ i. absurd (apart stop i.stopped)
          | adding rest ↦ λ i. absurd (apart stop i.stopped)
          | outside ↦ λ i. absurd (apart stop i.stopped)
          | waiting_results ↦ λ i. absurd (apart stop i.stopped)
          | collecting ↦ λ i. absurd (apart stop i.stopped)
          | joined ↦ λ i. absurd (Allowed-here joined ready e i)
        ]
          inv
