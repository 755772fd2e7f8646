-- ===== src/Libag/WorkQueue/Progress.antt =====
-- No deadlock: before a search has returned, or a stop, some thread has a step.
use libag.Common.{
  ℕ, ◌≡◌, ◌≢◌, refl, ap, ◌∙◌, subst, ◌⊎◌, inl, inr, true, false, List, [], ◌∷◌, ◌++◌, All, All-map,
  length-map, arith,
}
use libag.Cstr.{Str}
use libag.Libag.Results.{AgResult}
use libag.Libag.WorkQueue.{
  Phase, ready, asleep, woken_phase, woken, fall_asleep, searching, at_done, at_results, gone,
  Worker, Found, queued, own_file, Master, outside, adding, waiting_done, collecting,
  waiting_results, stopping, joined, State, call, ask_stop, Step, add_queued, add_own, close,
  take_file, finish_file, arrive, meet_done, collect, meet_results, leave, join, Steps, here, next,
}
use libag.Libag.WorkQueue.Inv.{Allowed, Inv, middle_phase}
use libag.Libag.WorkQueue.Wakes.{some-Signal, All-woken, woken-HasNoSlot}
use libag.Libag.WorkQueue.Kept.{apart}
use libag.Libag.WorkQueue.Answer.{IsIdle, Steps-Inv, call-Inv}

at_done-cases : (p : Phase) → (p ≡ at_done) ⊎ (p ≢ at_done)
at_done-cases at_done = inl refl
at_done-cases asleep = inr (λ e. ground arith)
at_done-cases ready = inr (λ e. ground arith)
at_done-cases (searching path) = inr (λ e. ground arith)
at_done-cases at_results = inr (λ e. ground arith)
at_done-cases gone = inr (λ e. ground arith)

gone-cases : (p : Phase) → (p ≡ gone) ⊎ (p ≢ gone)
gone-cases gone = inl refl
gone-cases asleep = inr (λ e. ground arith)
gone-cases ready = inr (λ e. ground arith)
gone-cases (searching path) = inr (λ e. ground arith)
gone-cases at_results = inr (λ e. ground arith)
gone-cases at_done = inr (λ e. ground arith)

-- A worker that is somewhere else.
abbrev Elsewhere : Phase → List Worker → Type 0
Elsewhere ph ts =
    (before : List Worker) × (t : Worker) × (after : List Worker) × (ts ≡ before ++ (t ∷ after))
    × (t.phase ≢ ph)

scan :
    (ph : Phase) (ts : List Worker)
    → ((p : Phase) → (p ≡ ph) ⊎ (p ≢ ph))
    → All (λ (t : Worker). t.phase ≡ ph) ts ⊎ Elsewhere ph ts
scan ph [] dec = inl tt
scan ph (t ∷ ts) dec = elim (dec t.phase) [
  | inr ne ↦ inr ([], t, ts, refl, ne)
  | inl e ↦ elim (scan ph ts dec) [
    | inl all ↦ inl (e, all)
    | inr (before, u, after, f, ne) ↦ inr (t ∷ before, u, after, ap (λ l. t ∷ l) f, ne)
  ]
]

module _ (search_file : Str → List AgResult) where
  abbrev Moves : State → Type 0
  Moves s = (t : State) × Step search_file s t

  module _ (files : List Found) (s : State) where
    -- A worker that has not come to `worker_done` has a step.
    worker-Moves :
        (before after : List Worker) (ph : Phase) (slot : List AgResult) (q : List Str)
        → s.workers ≡ before ++ (record { phase = ph; slot = slot } ∷ after)
        → s.queue ≡ q
        → s.done_adding_files ≡ true
        → s.stop_workers ≡ false
        → Allowed waiting_done q ph
        → ph ≢ at_done
        → Moves s
    worker-Moves before after ready slot [] e f closed running a ne =
        (_, arrive s before after slot e f closed running)
    worker-Moves before after ready slot (path ∷ q) e f closed running a ne =
        (_, take_file s before after slot path q e f)
    worker-Moves before after (searching path) slot q e f closed running a ne =
        (_, finish_file s before after slot path e)
    worker-Moves before after asleep slot q e f closed running a ne = absurd a
    worker-Moves before after at_done slot q e f closed running a ne = absurd (ne refl)
    worker-Moves before after at_results slot q e f closed running a ne = absurd a
    worker-Moves before after gone slot q e f closed running a ne = absurd a

    -- A worker that has not returned after the stop has a step.
    worker_leaves :
        (before after : List Worker) (ph : Phase) (slot : List AgResult)
        → s.workers ≡ before ++ (record { phase = ph; slot = slot } ∷ after)
        → s.queue ≡ []
        → s.done_adding_files ≡ true
        → s.stop_workers ≡ true
        → Allowed stopping s.queue ph
        → ph ≢ gone
        → Moves s
    worker_leaves before after ready slot e f closed stop a ne =
        (_, leave s before after slot e f closed stop)
    worker_leaves before after asleep slot e f closed stop a ne = absurd a
    worker_leaves before after gone slot e f closed stop a ne = absurd (ne refl)
    worker_leaves before after (searching path) slot e f closed stop a ne = absurd a
    worker_leaves before after at_done slot e f closed stop a ne = absurd a
    worker_leaves before after at_results slot e f closed stop a ne = absurd a

    waiting-Moves : Inv search_file files waiting_done s → Moves s
    waiting-Moves inv = elim (scan at_done s.workers at_done-cases) [
      | inl all ↦ (_, meet_done s inv.at all)
      | inr (before, t, after, e, ne) ↦
          worker-Moves before after t.phase t.slot s.queue e refl inv.closed inv.stopped
            (middle_phase search_file files waiting_done s before after t inv e) ne
    ]

    stopping-Moves : Inv search_file files stopping s → Moves s
    stopping-Moves inv = elim (scan gone s.workers gone-cases) [
      | inl all ↦ (_, join s inv.at all)
      | inr (before, t, after, e, ne) ↦
          worker_leaves before after t.phase t.slot e inv.accounts.no_file inv.closed inv.stopped
            (middle_phase search_file files stopping s before after t inv e) ne
    ]

    results_phase : (q : List Str) (p : Phase) → Allowed waiting_results q p → p ≡ at_results
    results_phase q p a = ground arith

    moves : (m : Master) → Inv search_file files m s → (m ≡ outside) ⊎ (m ≡ joined) ⊎ Moves s
    moves outside inv = inl refl
    moves joined inv = inr (inl refl)
    moves (adding []) inv = inr (inr (_, close s inv.at))
    moves (adding (queued path ∷ rest)) inv =
        inr (inr (_, add_queued s path rest _ inv.at (some-Signal s.workers).1))
    moves (adding (own_file path ∷ rest)) inv = inr (inr (_, add_own s path rest inv.at))
    moves waiting_done inv = inr (inr (waiting-Moves inv))
    moves collecting inv = inr (inr (_, collect s inv.at))
    moves waiting_results inv = inr (
        inr (
          _,
          meet_results s inv.at (
              All-map (λ (t : Worker). Allowed waiting_results s.queue t.phase)
                (λ (t : Worker). t.phase ≡ at_results) s.workers
                (λ t a. results_phase s.queue t.phase a) inv.phases),
        ))
    moves stopping inv = inr (inr (stopping-Moves inv))

  -- The flag of the stop is only set by `ag_stop_workers`.
  stop_workers-Step : {s t : State} → Step search_file s t → t.stop_workers ≡ s.stop_workers
  stop_workers-Step (add_queued s path rest ts e signal) = refl
  stop_workers-Step (fall_asleep s before after slot e f opened) = refl
  stop_workers-Step (add_own s path rest e) = refl
  stop_workers-Step (close s e) = refl
  stop_workers-Step (take_file s before after slot path rest e f) = refl
  stop_workers-Step (finish_file s before after slot path e) = refl
  stop_workers-Step (arrive s before after slot e f closed running) = refl
  stop_workers-Step (meet_done s e all) = refl
  stop_workers-Step (collect s e) = refl
  stop_workers-Step (meet_results s e all) = refl
  stop_workers-Step (leave s before after slot e f closed stop) = refl
  stop_workers-Step (join s e all) = refl

  stop_workers-Steps :
      {n : ℕ} {s t : State} → Steps search_file n s t → t.stop_workers ≡ s.stop_workers
  stop_workers-Steps (here s) = refl
  stop_workers-Steps (next n run step) = stop_workers-Step step ∙ stop_workers-Steps run

  -- As long as `ag_search` has not returned some thread has a step, where a worker that waits for
  -- `files_ready` has none until it is woken: the search is never stuck.
  pub search_never_stuck :
      (files : List Found) (n : ℕ) (s t : State)
      → IsIdle s
      → Steps search_file n (call files s) t
      → (t.master ≡ outside) ⊎ ((u : State) × Step search_file t u)
  search_never_stuck files n s t idle run = elim (moves files t t.master inv) [
    | inl out ↦ inl out
    | inr (inr step) ↦ inr step
    | inr (inl all) ↦ absurd (
        apart ((subst (λ m. Inv search_file files m t) all inv).stopped)
          (stop_workers-Steps run ∙ idle.running))
  ]
    where
      inv : Inv search_file files t.master t
      inv = Steps-Inv search_file files run (call-Inv search_file files s idle)

  module _ (files : List Found) where
    stop_phase :
        (q : List Str) (p : Phase) → Allowed outside q p → Allowed stopping q (woken_phase p)
    stop_phase q p a = ground arith

    gone_phase : (q : List Str) (p : Phase) → Allowed joined q p → p ≡ gone
    gone_phase q p a = ground arith

    ask_stop-Inv :
        (t : State) → Inv search_file files outside t → Inv search_file files stopping (ask_stop t)
    ask_stop-Inv t inv = record {
      at = refl;
      phases =
          All-woken (λ p. Allowed outside t.queue p) (λ p. Allowed stopping t.queue p) t.workers
            (stop_phase t.queue) inv.phases;
      some_worker = omega (arith, inv.some_worker, length-map {0, 0} woken t.workers);
      closed = refl;
      stopped = refl;
      accounts = record {
        no_file = inv.accounts.no_file;
        no_own = inv.accounts.no_own;
        no_slot = woken-HasNoSlot t.workers inv.accounts.no_slot;
        sums = inv.accounts.sums;
      };
    }

    -- After a search, `ag_stop_workers` ends with every worker gone: as long as one is not, some thread
    -- has a step, where a worker that waits for `files_ready` has none until it is woken.
    pub stop_joins :
        (n k : ℕ) (s t u : State)
        → IsIdle s
        → Steps search_file n (call files s) t
        → t.master ≡ outside
        → Steps search_file k (ask_stop t) u
        → ((u.master ≡ joined) × All (λ (t' : Worker). t'.phase ≡ gone) u.workers)
          ⊎ ((v : State) × Step search_file u v)
    stop_joins n k s t u idle run e stop = elim (moves files u u.master inv) [
      | inl out ↦ absurd (
          apart (stop_workers-Steps stop)
            ((subst (λ m. Inv search_file files m u) out inv).stopped))
      | inr (inr step) ↦ inr step
      | inr (inl all) ↦ inl (
        all,
        All-map (λ (t' : Worker). Allowed joined u.queue t'.phase)
            (λ (t' : Worker). t'.phase ≡ gone) u.workers (λ t' a. gone_phase u.queue t'.phase a)
            ((subst (λ m. Inv search_file files m u) all inv).phases),
      )
    ]
      where
        inv : Inv search_file files u.master u
        inv = Steps-Inv search_file files stop (
            ask_stop-Inv t (
              subst (λ m. Inv search_file files m t) e
                (Steps-Inv search_file files run (call-Inv search_file files s idle))))
