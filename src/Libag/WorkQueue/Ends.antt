-- ===== src/Libag/WorkQueue/Ends.antt =====
-- A search ends: every step makes a measure smaller, whatever the state.
use libag.Common.{
  ℕ, ◌+◌, ◌*◌, ◌<◌, ◌≤◌, ◌≡◌, refl, ap, List, [], ◌∷◌, ◌++◌, map, All, length, length-append,
  length-map, arith,
}
use libag.Cstr.{Str}
use libag.Libag.Results.{AgResult}
use libag.Libag.WorkQueue.{
  Phase, ready, asleep, searching, at_done, at_results, gone, Worker, woken_phase, woken, Signal,
  nobody, wakes, fall_asleep, Found, Master, outside, adding, waiting_done, collecting,
  waiting_results, stopping, joined, State, enter, emptied, call, Step, add_queued, add_own, close,
  take_file, finish_file, arrive, meet_done, collect, meet_results, leave, join, Steps, here, next,
}
use libag.Libag.WorkQueue.Wakes.{length-Signal}
use libag.Libag.WorkQueue.Answer.{IsIdle, Waits}

abbrev weight : Phase → ℕ
weight ready = 3
weight asleep = 2
weight (searching path) = 4
weight at_done = 1
weight at_results = 0
weight gone = 0

load : List Worker → ℕ
load [] = 0
load (t ∷ ts) = weight t.phase + load ts

-- For `n` workers.
abbrev master_weight : Master → ℕ → ℕ
master_weight outside n = 0
master_weight (adding rest) n = 4 * n + 4 + 4 * length rest
master_weight waiting_done n = 3 * n + 3
master_weight collecting n = 3 * n + 2
master_weight waiting_results n = 3 * n + 1
master_weight stopping n = 1
master_weight joined n = 0

measure : State → ℕ
measure s = master_weight s.master (length s.workers) + load s.workers + 2 * length s.queue

load-middle :
    (xs ys : List Worker) (t : Worker) → load (xs ++ (t ∷ ys)) ≡ load xs + weight t.phase + load ys
unfolding load
load-middle [] ys t = omega arith
load-middle (x ∷ xs) ys t = omega (arith, load-middle xs ys t)

load-enter : (ph : Phase) (ts : List Worker) → load (map (enter ph) ts) ≡ weight ph * length ts
unfolding load
load-enter ph [] = omega arith
load-enter ph (t ∷ ts) = ground (arith, load-enter ph ts)

load-emptied : (ts : List Worker) → load (map emptied ts) ≡ load ts
unfolding load
load-emptied [] = refl
load-emptied (t ∷ ts) = omega (arith, load-emptied ts)

-- A signal wakes one at most, a broadcast all.
load-Signal : {ts us : List Worker} → Signal ts us → load us ≤ load ts + 1
load-Signal (nobody ts all) = omega arith
load-Signal (wakes before after slot) = omega (
  arith,
  load-middle before after (record { phase = ready; slot = slot }),
  load-middle before after (record { phase = asleep; slot = slot }),
)

weight-woken_phase : (p : Phase) → weight (woken_phase p) ≤ weight p + 1
weight-woken_phase p = ground arith

load-woken : (ts : List Worker) → load (map woken ts) ≤ load ts + length ts
unfolding load
load-woken [] = omega arith
load-woken (t ∷ ts) = ground (arith, load-woken ts, weight-woken_phase t.phase)

-- Another worker in the place of one.
measure_worker :
    (s : State) (xs ys : List Worker) (t u : Worker) (q : List Str)
    → s.workers ≡ xs ++ (t ∷ ys)
    → weight u.phase + 2 * length q < weight t.phase + 2 * length s.queue
    → measure (record s { queue = q; workers = xs ++ (u ∷ ys) }) < measure s
unfolding measure
measure_worker s xs ys t u q e lt =
    omega
      (arith, ap load e, load-middle xs ys t, load-middle xs ys u, ap (master_weight s.master) same)
  where
    same : length (xs ++ (u ∷ ys)) ≡ length s.workers
    same = omega (arith, ap length e, length-append {0} xs (u ∷ ys), length-append {0} xs (t ∷ ys))

module _ (search_file : Str → List AgResult) where
  measure-Step : {s t : State} → Step search_file s t → measure t < measure s
  unfolding measure
  measure-Step (add_queued s path rest ts e signal) = omega (
    arith,
    ap (λ m. master_weight m (length s.workers)) e,
    ap (λ n. master_weight (adding rest) n) (length-Signal signal),
    load-Signal signal,
    length-append {0} s.queue (path ∷ []),
  )
  measure-Step (add_own s path rest e) =
      omega (arith, ap (λ m. master_weight m (length s.workers)) e)
  measure-Step (close s e) = omega (
    arith,
    ap (λ m. master_weight m (length s.workers)) e,
    load-woken s.workers,
    length-map {0, 0} woken s.workers,
  )
  measure-Step (fall_asleep s before after slot e f opened) =
      measure_worker s before after (record { phase = ready; slot = slot })
        (record { phase = asleep; slot = slot }) s.queue e (omega arith)
  measure-Step (take_file s before after slot path rest e f) =
      measure_worker s before after (record { phase = ready; slot = slot })
        (record { phase = searching path; slot = slot }) rest e (omega (arith, ap length f))
  measure-Step (finish_file s before after slot path e) =
      measure_worker s before after (record { phase = searching path; slot = slot })
        (record { phase = ready; slot = slot ++ search_file path }) s.queue e (omega arith)
  measure-Step (arrive s before after slot e f closed running) =
      measure_worker s before after (record { phase = ready; slot = slot })
        (record { phase = at_done; slot = slot }) s.queue e (omega arith)
  measure-Step (meet_done s e all_there) = omega (
    arith,
    ap (λ m. master_weight m (length s.workers)) e,
    load-enter at_results s.workers,
    length-map {0, 0} (enter at_results) s.workers,
  )
  measure-Step (collect s e) = omega (
    arith,
    ap (λ m. master_weight m (length s.workers)) e,
    load-emptied s.workers,
    length-map {0, 0} emptied s.workers,
  )
  measure-Step (meet_results s e all_there) =
      omega (arith, ap (λ m. master_weight m (length s.workers)) e, load-enter ready s.workers)
  measure-Step (leave s before after slot e f closed stop) =
      measure_worker s before after (record { phase = ready; slot = slot })
        (record { phase = gone; slot = slot }) s.queue e (omega arith)
  measure-Step (join s e all_gone) = omega (arith, ap (λ m. master_weight m (length s.workers)) e)

  measure-Steps : {n : ℕ} {s t : State} → Steps search_file n s t → n + measure t ≤ measure s
  measure-Steps (here s) = omega arith
  measure-Steps (next n run step) = omega (arith, measure-Steps run, measure-Step step)

  load-waiting :
      (ts : List Worker) → All (λ (t : Worker). Waits t.phase) ts → load ts ≤ 3 * length ts
  unfolding load
  load-waiting [] h = omega arith
  load-waiting (t ∷ ts) h = ground (arith, light t.phase h.0, load-waiting ts h.1)
    where
      light : (p : Phase) → Waits p → weight p ≤ 3
      light p k = ground (arith, k)

  -- A search takes at most seven steps for each worker, four for each file and four more, those in
  -- which a worker falls asleep among them.
  pub search_ends :
      (files : List Found) (n : ℕ) (s t : State)
      → IsIdle s
      → Steps search_file n (call files s) t
      → n ≤ 7 * length s.workers + 4 * length files + 4
  unfolding measure
  search_ends files n s t idle run = omega (
    arith,
    measure-Steps run,
    load-waiting s.workers idle.all_wait,
    ap (λ (l : List Str). length l) idle.no_file,
  )
