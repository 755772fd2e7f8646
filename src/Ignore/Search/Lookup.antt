-- ===== src/Ignore/Search/Lookup.antt =====
-- A lookup in a sorted list of patterns is membership.
use native.Mathlib.Nat.{le_refl}
use libag.Common.{
  ℕ, zero, suc, ◌<◌, ◌≡◌, sym, ap, inl, inr, Bool, true, false, ◌||◌, Option, none, some, List, [],
  ◌∷◌, length, get_elem?, Bool-cases, done, Returns-value, arith,
}
use libag.Cstr.{Str, str_eq}
use libag.Cstr.Order.{strcmp-eq, strcmp_self}
use libag.Util.BinarySearch.Sorted.{IsSorted}
use libag.Util.BinarySearch.Correct.{Locates, binary_search-Locates}
use libag.Ignore.Search.{is_some, found}

-- Membership by comparing with every element.
unfoldable pub contains : Str → List Str → Bool
contains needle [] = false
contains needle (x ∷ xs) = str_eq needle x || contains needle xs

str_eq-eq : (a b : Str) → str_eq a b ≡ true → a ≡ b
unfolding str_eq
str_eq-eq a b h = ground (arith, strcmp-eq a b)

str_eq_self : (a : Str) → str_eq a a ≡ true
unfolding str_eq
str_eq_self a = ground (arith, strcmp_self a)

contains_of_get :
    (needle : Str) (xs : List Str) (i : ℕ)
    → get_elem? xs i ≡ some needle
    → contains needle xs ≡ true
unfolding contains
contains_of_get needle [] i h = ground arith
contains_of_get needle (x ∷ xs) zero h = ground (arith, str_eq_self needle)
contains_of_get needle (x ∷ xs) (suc i) h = ground (arith, contains_of_get needle xs i h)

get_of_contains :
    (needle : Str) (xs : List Str)
    → contains needle xs ≡ true
    → (i : ℕ) × (i < length xs) × (get_elem? xs i ≡ some needle)
unfolding contains
get_of_contains needle [] h = ground arith
get_of_contains needle (x ∷ xs) h = elim (Bool-cases (str_eq needle x)) [
  | inl e ↦ (0, omega arith, ap some (sym (str_eq-eq needle x e)))
  | inr ne ↦ let (i, lt, at) = get_of_contains needle xs (ground arith) in (suc i, omega arith, at)
]

Locates-contains :
    (needle : Str) (hay : List Str) (r : Option ℕ)
    → Locates needle hay 0 (length hay) r
    → is_some r ≡ contains needle hay
Locates-contains needle hay (some p) l = sym (contains_of_get needle hay p l.2)
Locates-contains needle hay none l = elim (Bool-cases (contains needle hay)) [
  | inl yes_in ↦
      let (i, lt, at) = get_of_contains needle hay yes_in in absurd (l i (omega arith) lt at)
  | inr no_in ↦ sym no_in
]

-- In a sorted list the search by halving answers as the search one by one.
pub found-contains :
    (needle : Str) (hay : List Str) → IsSorted hay → found needle hay ≡ done (contains needle hay)
unfolding found
found-contains needle hay sorted =
    let (r, e, l) = Returns-value (Locates needle hay 0 (length hay)) _ (
      binary_search-Locates needle hay sorted (suc (length hay)) 0 (length hay) (omega arith)
        (le_refl (length hay)) (omega arith)) in
    rw e (ap done (Locates-contains needle hay r l))
