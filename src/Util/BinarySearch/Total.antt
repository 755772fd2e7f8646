-- ===== src/Util/BinarySearch/Total.antt =====
-- `binary_search` on any array, sorted or not.
use libag.Common.{
  ℕ, zero, suc, ◌+◌, ◌-◌, ◌/◌, ◌<◌, ◌≤◌, inl, inr, Option, List, [], length, get_or,
  get_elem?-eq-get_or, ==_self, ==_of_ne, ℕ_discrete, Ordering-cases, Returns, arith,
}
use libag.Cstr.{Str, strcmp}
use libag.Util.BinarySearch.{binary_search}

module _ (needle : Str) (hay : List Str) where
  -- The search returns, and reads inside the array, also where its answer means nothing.
  pub binary_search-Returns :
      (fuel start end : ℕ)
      → start ≤ end
      → end ≤ length hay
      → end - start < fuel
      → Returns (λ (r : Option ℕ). Unit {0}) (binary_search fuel needle hay start end)
  unfolding binary_search
  binary_search-Returns zero start end le b enough = absurd (omega arith)
  binary_search-Returns (suc fuel) start end le b enough = elim (ℕ_discrete start end) [
    | yes e ↦ rw e (rw (==_self end) tt)
    | no ne ↦
        let mid = start + (end - start) / 2 in
        let inside : mid < length hay = omega arith in
        rw (==_of_ne start end ne, get_elem?-eq-get_or hay mid [] inside)
          (elim (Ordering-cases (strcmp needle (get_or hay mid []))) [
            | inl lt ↦
                rw lt
                  (binary_search-Returns fuel start mid (omega arith) (omega arith) (omega arith))
            | inr (inl eq) ↦ rw eq tt
            | inr (inr gt) ↦
                rw gt (binary_search-Returns fuel (mid + 1) end (omega arith) b (omega arith))
          ])
  ]
