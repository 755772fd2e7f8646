-- ===== src/Tests/Threads.antt =====
-- A search with one worker that waits for the one file, step by step, and the stop after it.
use libag.Common.{ℕ, ◌+◌, ◌*◌, ◌≤◌, ◌≡◌, refl, ◌⊎◌, false, List, [], ◌∷◌, All, length, arith}
use libag.Cstr.{Str}
use libag.Libag.Results.{AgResult, text_file}
use libag.Libag.WorkQueue.{
  ready, gone, Worker, Found, queued, outside, joined, State, call, ask_stop, Step, fall_asleep,
  wakes, add_queued, close, take_file, finish_file, arrive, meet_done, collect, meet_results, leave,
  join, Steps, here, next,
}
use libag.Libag.WorkQueue.Sums.{tally, in_found}
use libag.Libag.WorkQueue.Answer.{IsIdle, search_result}
use libag.Libag.WorkQueue.Progress.{search_never_stuck, stop_joins}
use libag.Libag.WorkQueue.Ends.{search_ends}

abbrev entry : Str → AgResult
entry name = record { file = name; matches = []; flags = text_file }

-- One result for every file.
abbrev search_file : Str → List AgResult
search_file path = entry path ∷ []

abbrev name : Str
name = b'f' ∷ []

abbrev files : List Found
files = queued name ∷ []

abbrev start : State
start = record {
  queue = [];
  done_adding_files = false;
  stop_workers = false;
  workers = record { phase = ready; slot = [] } ∷ [];
  own_slot = [];
  master = outside;
  result = [];
}

abbrev finish : State
finish = record start { result = entry name ∷ [] }

start-IsIdle : IsIdle start
start-IsIdle = record {
  at = refl;
  all_wait = (tt, tt);
  some_worker = omega arith;
  no_file = refl;
  no_own = refl;
  no_slot = (refl, tt);
  opened = refl;
  running = refl;
}

search_run : Steps search_file 9 (call files start) finish
search_run =
    next 8
      (next 7
        (next 6
          (next 5
            (next 4
              (next 3
                (next 2
                  (next 1 (next 0 (here _) (fall_asleep _ [] [] [] refl refl refl))
                    (add_queued _ name [] _ refl (wakes [] [] [])))
                  (close _ refl))
                (take_file _ [] [] [] name [] refl refl))
              (finish_file _ [] [] [] name refl))
            (arrive _ [] [] (search_file name) refl refl refl refl))
          (meet_done _ refl (refl, tt)))
        (collect _ refl))
      (meet_results _ refl (refl, tt))

stop_run : Steps search_file 2 (ask_stop finish) (record (ask_stop finish) {
  master = joined;
  workers = record { phase = gone; slot = [] } ∷ [];
})
stop_run = next 1 (next 0 (here _) (leave _ [] [] [] refl refl refl refl)) (join _ refl (refl, tt))

search_result_example :
    IsIdle finish
    × ((w : AgResult → ℕ) → tally w finish.result ≡ tally w (in_found search_file files))
search_result_example = search_result search_file files 9 start finish start-IsIdle search_run refl

search_never_stuck_example : (finish.master ≡ outside) ⊎ ((u : State) × Step search_file finish u)
search_never_stuck_example =
    search_never_stuck search_file files 9 start finish start-IsIdle search_run

search_ends_example : 9 ≤ 7 * length start.workers + 4 * length files + 4
search_ends_example = search_ends search_file files 9 start finish start-IsIdle search_run

stop_joins_example :
    let stopped = record (ask_stop finish) {
      master = joined;
      workers = record { phase = gone; slot = [] } ∷ [];
    } in
    ((stopped.master ≡ joined) × All (λ (t : Worker). t.phase ≡ gone) stopped.workers)
    ⊎ ((v : State) × Step search_file stopped v)
stop_joins_example =
    stop_joins search_file files 9 2 start finish
      (record (ask_stop finish) {
        master = joined;
        workers = record { phase = gone; slot = [] } ∷ [];
      })
      start-IsIdle search_run refl stop_run
