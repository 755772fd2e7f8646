-- ===== src/Libag/WorkQueue.antt =====
-- The work queue between ag_search and ag_stop_workers of libag.c, search_dir and
-- search_file_worker of ag_src/search.c: what the caller's thread and the workers do, step by step.
pub mod Sums
pub mod Inv
pub mod Wakes
pub mod Kept
pub mod Course
pub mod Answer
pub mod Ends
pub mod Progress
use libag.Common.{ℕ, suc, ◌≡◌, ◌≢◌, Bool, true, false, List, [], ◌∷◌, ◌++◌, map, All}
use libag.Cstr.{Str}
use libag.Libag.Results.{AgResult}

-- Where a worker is: before the lock, waiting for `files_ready`, in `search_file`, at the barrier
-- `worker_done`, at the barrier `results_done`, or returned.
pub data Phase : Type 0 where
  ready asleep : Phase
  searching : Str → Phase
  at_done at_results gone : Phase

-- A worker with the results in its slot of `thrd_rslt`.
pub record Worker : Type 0 where
  pub phase : Phase
  pub slot : List AgResult

-- What the walk does with a file: it queues it, or searches it at once, as `search_dir` does with a
-- path that is not a directory.
pub data Found : Type 0 where
  queued own_file : Str → Found

-- Where the caller's thread is: outside `ag_search`, in the walk with the files to come, at either
-- barrier, between them, in the loop of `pthread_join`, or behind it.
pub data Master : Type 0 where
  outside : Master
  adding : List Found → Master
  waiting_done collecting waiting_results : Master
  stopping joined : Master

-- `own_slot` is the last slot of `thrd_rslt`, of the caller's thread; `result` is what the last
-- search returned.
pub record State : Type 0 where
  pub queue : List Str
  pub done_adding_files : Bool
  pub stop_workers : Bool
  pub workers : List Worker
  pub own_slot : List AgResult
  pub master : Master
  pub result : List AgResult

abbrev pub enter : Phase → Worker → Worker
enter phase t = record t { phase = phase }

abbrev pub emptied : Worker → Worker
emptied t = record t { slot = [] }

abbrev pub slots : List Worker → List AgResult
slots [] = []
slots (t ∷ ts) = t.slot ++ slots ts

-- `pthread_cond_broadcast(&files_ready)`
abbrev pub woken_phase : Phase → Phase
woken_phase ready = ready
woken_phase asleep = ready
woken_phase (searching path) = searching path
woken_phase at_done = at_done
woken_phase at_results = at_results
woken_phase gone = gone

abbrev pub woken : Worker → Worker
woken t = record t { phase = woken_phase t.phase }

-- `pthread_cond_signal(&files_ready)` wakes one of those that wait, if there is one. A worker that
-- nothing wakes stays asleep.
pub data Signal : List Worker → List Worker → Type 0 where
  nobody : (ts : List Worker) → All (λ (t : Worker). t.phase ≢ asleep) ts → Signal ts ts
  wakes :
      (before after : List Worker) (slot : List AgResult)
      → Signal
          (before ++ (record { phase = asleep; slot = slot } ∷ after))
          (before ++ (record { phase = ready; slot = slot } ∷ after))

-- `ag_search` enters its walk.
abbrev pub call : List Found → State → State
call files s = record s { master = adding files }

-- `ag_stop_workers` sets the flags and wakes all.
abbrev pub ask_stop : State → State
ask_stop s = record s {
  master = stopping;
  done_adding_files = true;
  stop_workers = true;
  workers = map woken s.workers;
}

-- `search_file` is what the search of a file adds to the slot of the thread that does it.
module _ (search_file : Str → List AgResult) where
  pub data Step : State → State → Type 0 where
    -- The walk appends to the queue, and signals.
    add_queued :
        (s : State) (path : Str) (rest : List Found) (ts : List Worker)
        → s.master ≡ adding (queued path ∷ rest)
        → Signal s.workers ts
        → Step s (record s { master = adding rest; queue = s.queue ++ (path ∷ []); workers = ts })
    -- The walk searches a file itself.
    add_own :
        (s : State) (path : Str) (rest : List Found)
        → s.master ≡ adding (own_file path ∷ rest)
        → Step s (record s { master = adding rest; own_slot = s.own_slot ++ search_file path })
    -- "Wakeup threads and let them known that work is done."
    close :
        (s : State)
        → s.master ≡ adding []
        → Step s (record s {
          master = waiting_done;
          done_adding_files = true;
          workers = map woken s.workers;
        })
    -- The queue is empty, and more may come: a worker waits for `files_ready`.
    fall_asleep :
        (s : State) (before after : List Worker) (slot : List AgResult)
        → s.workers ≡ before ++ (record { phase = ready; slot = slot } ∷ after)
        → s.queue ≡ []
        → s.done_adding_files ≡ false
        → Step s (record s { workers = before ++ (record { phase = asleep; slot = slot } ∷ after) })
    -- A worker takes the head of the queue.
    take_file :
        (s : State) (before after : List Worker) (slot : List AgResult) (path : Str)
        (rest : List Str)
        → s.workers ≡ before ++ (record { phase = ready; slot = slot } ∷ after)
        → s.queue ≡ path ∷ rest
        → Step s (record s {
          queue = rest;
          workers = before ++ (record { phase = searching path; slot = slot } ∷ after);
        })
    -- It has searched the file.
    finish_file :
        (s : State) (before after : List Worker) (slot : List AgResult) (path : Str)
        → s.workers ≡ before ++ (record { phase = searching path; slot = slot } ∷ after)
        → Step s (record s {
          workers = before ++ (record { phase = ready; slot = slot ++ search_file path } ∷ after);
        })
    -- The queue is empty, and no file is to come.
    arrive :
        (s : State) (before after : List Worker) (slot : List AgResult)
        → s.workers ≡ before ++ (record { phase = ready; slot = slot } ∷ after)
        → s.queue ≡ []
        → s.done_adding_files ≡ true
        → s.stop_workers ≡ false
        → Step s
            (record s { workers = before ++ (record { phase = at_done; slot = slot } ∷ after) })
    -- All have come to `worker_done`.
    meet_done :
        (s : State)
        → s.master ≡ waiting_done
        → All (λ t. t.phase ≡ at_done) s.workers
        → Step s (record s { master = collecting; workers = map (enter at_results) s.workers })
    -- `get_thrd_results` and `reset_local_results`
    collect :
        (s : State)
        → s.master ≡ collecting
        → Step s (record s {
          master = waiting_results;
          result = slots s.workers ++ s.own_slot;
          workers = map emptied s.workers;
          own_slot = [];
          done_adding_files = false;
        })
    -- All have come to `results_done`; `ag_search` returns.
    meet_results :
        (s : State)
        → s.master ≡ waiting_results
        → All (λ t. t.phase ≡ at_results) s.workers
        → Step s (record s { master = outside; workers = map (enter ready) s.workers })
    -- A worker returns.
    leave :
        (s : State) (before after : List Worker) (slot : List AgResult)
        → s.workers ≡ before ++ (record { phase = ready; slot = slot } ∷ after)
        → s.queue ≡ []
        → s.done_adding_files ≡ true
        → s.stop_workers ≡ true
        → Step s (record s { workers = before ++ (record { phase = gone; slot = slot } ∷ after) })
    -- The last `pthread_join` returns.
    join :
        (s : State)
        → s.master ≡ stopping
        → All (λ t. t.phase ≡ gone) s.workers
        → Step s (record s { master = joined })

  -- A run of so many steps.
  pub data Steps : ℕ → State → State → Type 0 where
    here : (s : State) → Steps 0 s s
    next : (n : ℕ) {s t u : State} → Steps n s t → Step t u → Steps (suc n) s u
