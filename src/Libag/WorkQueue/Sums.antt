-- ===== src/Libag/WorkQueue/Sums.antt =====
-- Sums over results, which do not see their order, and what is still to come of a search.
use libag.Common.{ℕ, ◌+◌, ◌≡◌, List, [], ◌∷◌, ◌++◌, arith}
use libag.Cstr.{Str}
use libag.Libag.Results.{AgResult}
use libag.Libag.WorkQueue.{
  Phase, ready, asleep, searching, at_done, at_results, gone, Worker, Found, queued, own_file,
  State,
}

-- The sum of the weights of the results. Lists with the same sums for all weights have the same
-- results, each as often.
unfoldable pub tally : (AgResult → ℕ) → List AgResult → ℕ
tally w [] = 0
tally w (r ∷ rs) = w r + tally w rs

pub tally-append :
    (w : AgResult → ℕ) (xs ys : List AgResult) → tally w (xs ++ ys) ≡ tally w xs + tally w ys
unfolding tally
tally-append w [] ys = omega arith
tally-append w (x ∷ xs) ys = omega (arith, tally-append w xs ys)

module _ (search_file : Str → List AgResult) where
  abbrev pub path_of : Found → Str
  path_of (queued path) = path
  path_of (own_file path) = path

  -- The results of files in a queue, and of files that the walk has still to come to.
  unfoldable pub in_files : List Str → List AgResult
  in_files [] = []
  in_files (path ∷ rest) = search_file path ++ in_files rest

  unfoldable pub in_found : List Found → List AgResult
  in_found [] = []
  in_found (f ∷ rest) = search_file (path_of f) ++ in_found rest

  -- The results that a worker has, and will have when it has searched its file.
  abbrev pub in_phase : Phase → List AgResult
  in_phase (searching path) = search_file path
  in_phase ready = []
  in_phase asleep = []
  in_phase at_done = []
  in_phase at_results = []
  in_phase gone = []

  unfoldable pub in_workers : List Worker → List AgResult
  in_workers [] = []
  in_workers (t ∷ ts) = (t.slot ++ in_phase t.phase) ++ in_workers ts

  module _ (w : AgResult → ℕ) where
    pub tally-in_files-append :
        (xs ys : List Str)
        → tally w (in_files (xs ++ ys)) ≡ tally w (in_files xs) + tally w (in_files ys)
    unfolding in_files tally
    tally-in_files-append [] ys = omega arith
    tally-in_files-append (x ∷ xs) ys = omega (
      arith,
      tally-append w (search_file x) (in_files (xs ++ ys)),
      tally-append w (search_file x) (in_files xs),
      tally-in_files-append xs ys,
    )

    pub tally-in_workers-middle :
        (xs ys : List Worker) (t : Worker)
        → tally w (in_workers (xs ++ (t ∷ ys)))
          ≡ tally w (in_workers xs)
            + tally w t.slot
            + tally w (in_phase t.phase)
            + tally w (in_workers ys)
    unfolding in_workers tally
    tally-in_workers-middle [] ys t = omega (
      arith,
      tally-append w (t.slot ++ in_phase t.phase) (in_workers ys),
      tally-append w t.slot (in_phase t.phase),
    )
    tally-in_workers-middle (x ∷ xs) ys t = omega (
      arith,
      tally-append w (x.slot ++ in_phase x.phase) (in_workers (xs ++ (t ∷ ys))),
      tally-append w (x.slot ++ in_phase x.phase) (in_workers xs),
      tally-in_workers-middle xs ys t,
    )

    -- What remains of a search: in the slots, in the workers' hands, in the queue and to be found.
    unfoldable pub pending : List Found → State → ℕ
    pending rest s =
        tally w (in_workers s.workers)
        + tally w s.own_slot
        + tally w (in_files s.queue)
        + tally w (in_found rest)
