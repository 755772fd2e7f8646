-- ===== src/Libag/WorkQueue/Inv.antt =====
-- An invariant of a search: where the threads can be, and what is still to come.
use libag.Common.{
  ℕ, ◌+◌, ◌<◌, ◌≡◌, ap, ◌∙◌, subst, Bool, true, false, List, [], ◌∷◌, ◌++◌, All, length,
  length-append, arith,
}
use libag.Cstr.{Str}
use libag.Libag.Results.{AgResult}
use libag.Libag.WorkQueue.{
  Phase, ready, asleep, searching, at_done, at_results, gone, Worker, Found, Master, outside,
  adding, waiting_done, collecting, waiting_results, stopping, joined, State,
}
use libag.Libag.WorkQueue.Sums.{
  tally, in_found, in_phase, in_workers, tally-in_workers-middle, pending,
}

-- Where a worker can be, by where the caller's thread is and what the queue holds.
abbrev pub Allowed : Master → List Str → Phase → Type 0
Allowed (adding rest) q ready = Unit
Allowed (adding rest) q asleep = Unit
Allowed (adding rest) q (searching path) = Unit
Allowed waiting_done q ready = Unit
Allowed waiting_done q (searching path) = Unit
Allowed waiting_done q at_done = q ≡ []
Allowed collecting q at_results = Unit
Allowed waiting_results q at_results = Unit
Allowed outside q ready = Unit
Allowed outside q asleep = Unit
Allowed stopping q ready = Unit
Allowed stopping q gone = Unit
Allowed joined q gone = Unit
Allowed _ q _ = ⊥

abbrev pub is_closed : Master → Bool
is_closed waiting_done = true
is_closed collecting = true
is_closed stopping = true
is_closed joined = true
is_closed _ = false

abbrev pub is_stopping : Master → Bool
is_stopping stopping = true
is_stopping joined = true
is_stopping _ = false

abbrev pub HasNoSlot : List Worker → Type 0
HasNoSlot ts = All (λ (t : Worker). t.slot ≡ []) ts

pub All-middle {ℓ κ} :
    {A : Type ℓ} (P : A → Type κ) (xs ys : List A) (t : A)
    → All P (xs ++ (t ∷ ys))
    → All P xs × P t × All P ys
All-middle P [] ys t h = (tt, h.0, h.1)
All-middle P (x ∷ xs) ys t h = let (a, b, c) = All-middle P xs ys t h.1 in ((h.0, a), b, c)

pub All-replace {ℓ κ} :
    {A : Type ℓ} (P : A → Type κ) (xs ys : List A) (t u : A)
    → All P (xs ++ (t ∷ ys))
    → (P t → P u)
    → All P (xs ++ (u ∷ ys))
All-replace P [] ys t u h f = (f h.0, h.1)
All-replace P (x ∷ xs) ys t u h f = (h.0, All-replace P xs ys t u h.1 f)

module _ (search_file : Str → List AgResult) (files : List Found) where
  -- The sums over what is pending are the sums over the files of the search.
  abbrev pub IsPending : List Found → State → Type 0
  IsPending rest s =
      (w : AgResult → ℕ) → pending search_file w rest s ≡ tally w (in_found search_file files)

  -- The result is there, and nothing is left behind.
  pub record IsAnswered (s : State) : Type 0 where
    pub no_file : s.queue ≡ []
    pub no_own : s.own_slot ≡ []
    pub no_slot : HasNoSlot s.workers
    pub sums : (w : AgResult → ℕ) → tally w s.result ≡ tally w (in_found search_file files)

  abbrev pub Accounts : Master → State → Type 0
  Accounts (adding rest) s = IsPending rest s
  Accounts waiting_done s = IsPending [] s
  Accounts collecting s = IsPending [] s × (s.queue ≡ [])
  Accounts waiting_results s = IsAnswered s
  Accounts outside s = IsAnswered s
  Accounts stopping s = IsAnswered s
  Accounts joined s = IsAnswered s

  pub record Inv (m : Master) (s : State) : Type 0 where
    pub at : s.master ≡ m
    pub phases : All (λ (t : Worker). Allowed m s.queue t.phase) s.workers
    pub some_worker : 0 < length s.workers
    pub closed : s.done_adding_files ≡ is_closed m
    pub stopped : s.stop_workers ≡ is_stopping m
    pub accounts : Accounts m s

  -- A worker's step does not change how many there are.
  pub length-middle :
      (s : State) (xs ys : List Worker) (t u : Worker)
      → s.workers ≡ xs ++ (t ∷ ys)
      → 0 < length (xs ++ (u ∷ ys))
  length-middle s xs ys t u e = omega (arith, length-append {0} xs (u ∷ ys))

  pub sum_workers :
      (s : State) (w : AgResult → ℕ) (xs ys : List Worker) (t : Worker)
      → s.workers ≡ xs ++ (t ∷ ys)
      → tally w (in_workers search_file s.workers)
        ≡ tally w (in_workers search_file xs)
          + tally w t.slot
          + tally w (in_phase search_file t.phase)
          + tally w (in_workers search_file ys)
  sum_workers s w xs ys t e =
      ap (λ l. tally w (in_workers search_file l)) e ∙ tally-in_workers-middle search_file w xs ys t

  pub middle_phases :
      (m : Master) (s : State) (xs ys : List Worker) (t : Worker)
      → Inv m s
      → s.workers ≡ xs ++ (t ∷ ys)
      → All (λ (t : Worker). Allowed m s.queue t.phase) (xs ++ (t ∷ ys))
  middle_phases m s xs ys t inv e =
      subst (λ l. All (λ (t : Worker). Allowed m s.queue t.phase) l) e inv.phases

  pub middle_phase :
      (m : Master) (s : State) (xs ys : List Worker) (t : Worker)
      → Inv m s
      → s.workers ≡ xs ++ (t ∷ ys)
      → Allowed m s.queue t.phase
  middle_phase m s xs ys t inv e =
      (All-middle (λ (t : Worker). Allowed m s.queue t.phase) xs ys t
        (middle_phases m s xs ys t inv e)).1
