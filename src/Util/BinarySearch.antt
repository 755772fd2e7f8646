-- ===== src/Util/BinarySearch.antt =====
-- `binary_search` of ag_src/util.c, over a sorted array of strings.
pub mod Sorted
pub mod Correct
pub mod Total
use libag.Common.{
  ℕ, zero, suc, ◌+◌, ◌-◌, ◌/◌, Option, none, some, List, Ordering, ◌==◌, if◌then◌else◌, get_elem?,
  Run, done, fault, looping,
}
use libag.Cstr.{Str, strcmp}

-- `none` is the result -1. `start` and `end` never pass `INT_MAX`, since `end` is the length of an
-- array, and `start <= end`; so the C arithmetic is that of ℕ.
unfoldable pub binary_search : ℕ → Str → List Str → ℕ → ℕ → Run (Option ℕ)
binary_search zero needle haystack start end = looping
binary_search (suc fuel) needle haystack start end =
    let mid = start + (end - start) / 2 in
    let lower = binary_search fuel needle haystack start mid in
    let upper = binary_search fuel needle haystack (mid + 1) end in
    let probe = elim (get_elem? haystack mid) as (λ _. Run (Option ℕ)) [
      | none ↦ fault
      | some h ↦ elim (strcmp needle h) [
        | Ordering.lt ↦ lower
        | Ordering.gt ↦ upper
        | Ordering.eq ↦ done (some mid)
      ]
    ] in
    if start == end then done none else probe
