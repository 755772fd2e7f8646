-- ===== src/Util/BinarySearch/Correct.antt =====
-- On a sorted array `binary_search` returns, stays in bounds and finds what is there.
use libag.Common.{
  ℕ, zero, suc, ◌+◌, ◌-◌, ◌/◌, ◌≤◌, ◌<◌, ◌≡◌, ◌≢◌, inl, inr, Option, none, some, List, Ordering,
  ==_self, ==_of_ne, Ordering-cases, ◌∙◌, ap, sym, [], dec_lt, ℕ_discrete, get_elem?, get_or,
  get_elem?-eq-get_or, length, Run, done, fault, looping, Returns, arith,
}
use libag.Cstr.{Str, strcmp}
use libag.Cstr.Order.{strcmp_lt_swap, strcmp-eq}
use libag.Util.BinarySearch.{binary_search}
use libag.Util.BinarySearch.Sorted.{IsSorted, IsSorted-LeStr}

-- What the answer says of the cells from `start` to `end`.
abbrev pub Locates : Str → List Str → ℕ → ℕ → Option ℕ → Type 0
Locates needle hay start end (some p) = (start ≤ p) × (p < end) × (get_elem? hay p ≡ some needle)
Locates needle hay start end none = (i : ℕ) → start ≤ i → i < end → get_elem? hay i ≢ some needle

module _ (needle : Str) (hay : List Str) (sorted : IsSorted hay) where
  -- A cell on the far side of the probe is not the needle.
  above_ne :
      (mid i : ℕ)
      → i < length hay
      → mid ≤ i
      → strcmp needle (get_or hay mid []) ≡ Ordering.lt
      → get_elem? hay i ≢ some needle
  above_ne mid i b le lt e = ground (
    arith,
    get_elem?-eq-get_or hay i [] b,
    IsSorted-LeStr hay mid i [] sorted le b,
    strcmp_lt_swap needle (get_or hay mid []) lt,
  )

  below_ne :
      (mid i : ℕ)
      → mid < length hay
      → i ≤ mid
      → strcmp needle (get_or hay mid []) ≡ Ordering.gt
      → get_elem? hay i ≢ some needle
  below_ne mid i b le gt e =
      ground
        (arith, get_elem?-eq-get_or hay i [] (omega arith), IsSorted-LeStr hay i mid [] sorted le b)

  module _ (start end mid : ℕ) (le : start ≤ mid) (lt : mid < end) (b : end ≤ length hay) where
    widen_lower :
        strcmp needle (get_or hay mid []) ≡ Ordering.lt
        → (r : Run (Option ℕ)) → Returns (Locates needle hay start mid) r
        → Returns (Locates needle hay start end) r
    widen_lower h (done (some p)) f = (f.0, omega arith, f.2)
    widen_lower h (done none) f = λ i p q. elim (dec_lt i mid) [
      | yes m ↦ f i p m
      | no m ↦ above_ne mid i (omega arith) (omega arith) h
    ]
    widen_lower h fault f = f
    widen_lower h looping f = f

    widen_upper :
        strcmp needle (get_or hay mid []) ≡ Ordering.gt
        → (r : Run (Option ℕ)) → Returns (Locates needle hay (mid + 1) end) r
        → Returns (Locates needle hay start end) r
    widen_upper h (done (some p)) f = (omega arith, f.1, f.2)
    widen_upper h (done none) f = λ i p q. elim (dec_lt mid i) [
      | yes m ↦ f i (omega arith) q
      | no m ↦ below_ne mid i (omega arith) (omega arith) h
    ]
    widen_upper h fault f = f
    widen_upper h looping f = f

  -- From `start <= end` inside a sorted array, and with more rounds than there are cells between
  -- them, the search returns; a position that it returns lies between them and holds the needle,
  -- and when it returns -1 no cell between them holds the needle.
  pub binary_search-Locates :
      (fuel start end : ℕ)
      → start ≤ end
      → end ≤ length hay
      → end - start < fuel
      → Returns (Locates needle hay start end) (binary_search fuel needle hay start end)
  unfolding binary_search
  binary_search-Locates zero start end le b enough = absurd (omega arith)
  binary_search-Locates (suc fuel) start end le b enough = elim (ℕ_discrete start end) [
    | yes e ↦ rw e (rw (==_self end) (λ i p q. absurd (omega arith)))
    | no ne ↦
        let mid = start + (end - start) / 2 in
        let inside : mid < length hay = omega arith in
        rw (==_of_ne start end ne, get_elem?-eq-get_or hay mid [] inside)
          (elim (Ordering-cases (strcmp needle (get_or hay mid []))) [
            | inl lt ↦ rw lt (
                widen_lower start end mid (omega arith) (omega arith) b lt _
                  (binary_search-Locates fuel start mid (omega arith) (omega arith) (omega arith)))
            | inr (inl eq) ↦ rw eq (
              omega arith,
              omega arith,
              get_elem?-eq-get_or hay mid [] inside ∙ ap some (sym (strcmp-eq _ _ eq)),
            )
            | inr (inr gt) ↦ rw gt (
                widen_upper start end mid (omega arith) (omega arith) b gt _
                  (binary_search-Locates fuel (mid + 1) end (omega arith) b (omega arith)))
          ])
  ]
