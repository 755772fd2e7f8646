-- ===== src/Libag/WorkQueue/Wakes.antt =====
-- Waking the workers that wait for `files_ready`, by `pthread_cond_signal` or `pthread_cond_broadcast`:
-- what it leaves as it is.
use libag.Common.{
  ℕ, ◌≡◌, ◌≢◌, refl, ap, List, [], ◌∷◌, ◌++◌, map, All, length, length-append, arith,
}
use libag.Cstr.{Str}
use libag.Libag.Results.{AgResult}
use libag.Libag.WorkQueue.{
  Phase, ready, asleep, searching, at_done, at_results, gone, Worker, woken_phase, woken, Signal,
  nobody, wakes,
}
use libag.Libag.WorkQueue.Sums.{tally, tally-append, in_phase, in_workers, tally-in_workers-middle}
use libag.Libag.WorkQueue.Inv.{HasNoSlot, All-replace}

-- A signal goes on to a worker further behind.
Signal-behind :
    (t : Worker) (ts : List Worker)
    → t.phase ≢ asleep
    → (us : List Worker) × Signal ts us
    → (us : List Worker) × Signal (t ∷ ts) us
Signal-behind t ts awake (us, nobody ts' all) = (t ∷ ts, nobody (t ∷ ts) (awake, all))
Signal-behind t ts awake (us, wakes before after slot) =
    (t ∷ before ++ (record { phase = ready; slot = slot } ∷ after), wakes (t ∷ before) after slot)

-- The signal where the first worker is in that phase.
Signal-at :
    (p : Phase) (slot : List AgResult) (ts : List Worker)
    → (us : List Worker) × Signal ts us
    → (us : List Worker) × Signal (record { phase = p; slot = slot } ∷ ts) us
Signal-at asleep slot ts rest = (record { phase = ready; slot = slot } ∷ ts, wakes [] ts slot)
Signal-at ready slot ts rest = Signal-behind _ ts (λ e. ground (arith, e)) rest
Signal-at (searching path) slot ts rest = Signal-behind _ ts (λ e. ground (arith, e)) rest
Signal-at at_done slot ts rest = Signal-behind _ ts (λ e. ground (arith, e)) rest
Signal-at at_results slot ts rest = Signal-behind _ ts (λ e. ground (arith, e)) rest
Signal-at gone slot ts rest = Signal-behind _ ts (λ e. ground (arith, e)) rest

-- Whether workers wait or not, there is a signal.
pub some-Signal : (ts : List Worker) → (us : List Worker) × Signal ts us
some-Signal [] = ([], nobody [] tt)
some-Signal (t ∷ ts) = Signal-at t.phase t.slot ts (some-Signal ts)

pub length-Signal : {ts us : List Worker} → Signal ts us → length us ≡ length ts
length-Signal (nobody ts all) = refl
length-Signal (wakes before after slot) = omega (
  arith,
  length-append {0} before (record { phase = ready; slot = slot } ∷ after),
  length-append {0} before (record { phase = asleep; slot = slot } ∷ after),
)

pub All-Signal :
    (P : Phase → Type 0) {ts us : List Worker}
    → Signal ts us
    → P ready
    → All (λ (t : Worker). P t.phase) ts
    → All (λ (t : Worker). P t.phase) us
All-Signal P (nobody ts all) awake h = h
All-Signal P (wakes before after slot) awake h =
    All-replace (λ (t : Worker). P t.phase) before after (record { phase = asleep; slot = slot })
      (record { phase = ready; slot = slot }) h (λ _. awake)

pub All-woken :
    (P Q : Phase → Type 0) (ts : List Worker)
    → ((p : Phase) → P p → Q (woken_phase p))
    → All (λ (t : Worker). P t.phase) ts
    → All (λ (t : Worker). Q t.phase) (map woken ts)
All-woken P Q [] f h = tt
All-woken P Q (t ∷ ts) f h = (f t.phase h.0, All-woken P Q ts f h.1)

pub woken-HasNoSlot : (ts : List Worker) → HasNoSlot ts → HasNoSlot (map woken ts)
woken-HasNoSlot [] h = tt
woken-HasNoSlot (t ∷ ts) h = (h.0, woken-HasNoSlot ts h.1)

module _ (search_file : Str → List AgResult) (w : AgResult → ℕ) where
  pub tally-Signal :
      {ts us : List Worker}
      → Signal ts us
      → tally w (in_workers search_file us) ≡ tally w (in_workers search_file ts)
  tally-Signal (nobody ts all) = refl
  tally-Signal (wakes before after slot) = omega (
    arith,
    tally-in_workers-middle search_file w before after (record { phase = ready; slot = slot }),
    tally-in_workers-middle search_file w before after (record { phase = asleep; slot = slot }),
  )

  in_woken : (p : Phase) → in_phase search_file (woken_phase p) ≡ in_phase search_file p
  in_woken ready = refl
  in_woken asleep = refl
  in_woken (searching path) = refl
  in_woken at_done = refl
  in_woken at_results = refl
  in_woken gone = refl

  pub tally-woken :
      (ts : List Worker)
      → tally w (in_workers search_file (map woken ts)) ≡ tally w (in_workers search_file ts)
  unfolding in_workers
  tally-woken [] = refl
  tally-woken (t ∷ ts) = omega (
    arith,
    tally-append w (t.slot ++ in_phase search_file (woken_phase t.phase))
        (in_workers search_file (map woken ts)),
    tally-append w (t.slot ++ in_phase search_file t.phase) (in_workers search_file ts),
    ap (λ l. tally w (t.slot ++ l)) (in_woken t.phase),
    tally-woken ts,
  )
