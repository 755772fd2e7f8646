-- ===== src/Ignore/Pattern/Order.antt =====
-- What an insertion into a pattern list keeps: the patterns already there, and the order.
use mathlib.Core.List.{Perm}
use mathlib.Core.List.Perm
use libag.Common.{ℕ, ◌≡◌, subst, List, [], ◌∷◌, All, take, Ordering, gt-cases, inl, inr}
use libag.Cstr.{Str, strcmp}
use libag.Cstr.Order.{LeStr, LeStr-trans, LeStr-total}
use libag.Util.BinarySearch.Sorted.{IsSorted}
use libag.Ignore.Pattern.{insert_pattern}
use libag.Ignore.Pattern.Place.{
  reverse_onto, place, place-cons_gt, place-cons_le, insert_pattern-place, reverse_onto_twice,
}

reverse_onto-perm : (r xs ys : List Str) → Perm xs ys → Perm (reverse_onto r xs) (reverse_onto r ys)
reverse_onto-perm [] xs ys h = h
reverse_onto-perm (z ∷ r) xs ys h = reverse_onto-perm r (z ∷ xs) (z ∷ ys) (Perm.cons z h)

reverse_onto-perm_front :
    (r xs : List Str) (t : Str) → Perm (reverse_onto r (t ∷ xs)) (t ∷ reverse_onto r xs)
reverse_onto-perm_front [] xs t = Perm.refl _
reverse_onto-perm_front (z ∷ r) xs t =
    Perm.trans (reverse_onto-perm r _ _ (Perm.swap _ _ xs)) (reverse_onto-perm_front r (z ∷ xs) t)

place-perm : (p t : Str) (r acc : List Str) → Perm (place p t r acc) (t ∷ reverse_onto r acc)
unfolding place
place-perm p t [] acc = Perm.refl _
place-perm p t (y ∷ r) acc = elim (gt-cases (strcmp p y)) [
  | inl gt ↦ rw (place-cons_gt p t y r acc gt) (reverse_onto-perm_front (y ∷ r) acc t)
  | inr le ↦ rw (place-cons_le p t y r acc le) (place-perm p t r (y ∷ acc))
]

-- The new array holds the old patterns and the trimmed new one, each as often as before.
pub insert_pattern-perm :
    (p : Str) (n : ℕ) (ps : List Str) → Perm (insert_pattern p n ps) (take n p ∷ ps)
insert_pattern-perm p n ps = rw (insert_pattern-place p n ps) (
    subst (λ (xs : List Str). Perm (place p (take n p) (reverse_onto ps []) []) (take n p ∷ xs))
      (reverse_onto_twice ps []) (place-perm p (take n p) (reverse_onto ps []) []))

All-LeStr : (a b : Str) (xs : List Str) → LeStr a b → All (LeStr b) xs → All (LeStr a) xs
All-LeStr a b [] h all = tt
All-LeStr a b (x ∷ xs) h all = (LeStr-trans a b x h all.0, All-LeStr a b xs h all.1)

reverse_onto-IsSorted_suffix : (r xs : List Str) → IsSorted (reverse_onto r xs) → IsSorted xs
reverse_onto-IsSorted_suffix [] xs h = h
reverse_onto-IsSorted_suffix (z ∷ r) xs h = (reverse_onto-IsSorted_suffix r (z ∷ xs) h).1

-- The last part may be replaced by one with the same lower bounds.
reverse_onto-IsSorted :
    (r xs ys : List Str)
    → ((a : Str) → All (LeStr a) xs → All (LeStr a) ys)
    → IsSorted ys
    → IsSorted (reverse_onto r xs)
    → IsSorted (reverse_onto r ys)
reverse_onto-IsSorted [] xs ys bounds new old = new
reverse_onto-IsSorted (z ∷ r) xs ys bounds new old =
    reverse_onto-IsSorted r (z ∷ xs) (z ∷ ys) (λ a h. (h.0, bounds a h.1))
      (bounds z (reverse_onto-IsSorted_suffix r (z ∷ xs) old).0, new) old

module _ (t y : Str) (r acc : List Str) (s : IsSorted (reverse_onto r (y ∷ acc))) where
  above_y : All (LeStr y) acc
  above_y = (reverse_onto-IsSorted_suffix r (y ∷ acc) s).0

  insert_above :
      All (LeStr t) acc → strcmp t y ≡ Ordering.gt → IsSorted (reverse_onto r (y ∷ (t ∷ acc)))
  insert_above above gt =
      reverse_onto-IsSorted r (y ∷ acc) (y ∷ (t ∷ acc))
        (λ a h. (h.0, (LeStr-trans a y t h.0 (LeStr-total t y gt), h.1)))
        ((LeStr-total t y gt, above_y), (above, (reverse_onto-IsSorted_suffix r (y ∷ acc) s).1)) s

place-IsSorted :
    (t : Str) (r acc : List Str)
    → All (LeStr t) acc
    → IsSorted (reverse_onto r acc)
    → IsSorted (place t t r acc)
unfolding place
place-IsSorted t [] acc above s = (above, s)
place-IsSorted t (y ∷ r) acc above s = elim (gt-cases (strcmp t y)) [
  | inl gt ↦ rw (place-cons_gt t t y r acc gt) (insert_above t y r acc s above gt)
  | inr le ↦ rw (place-cons_le t t y r acc le) (place-IsSorted t r (y ∷ acc) (le, above) s)
]

-- If all of the pattern is stored, a sorted list stays sorted.
pub insert_pattern-IsSorted :
    (p : Str) (n : ℕ) (ps : List Str)
    → take n p ≡ p
    → IsSorted ps
    → IsSorted (insert_pattern p n ps)
insert_pattern-IsSorted p n ps whole s =
    rw (insert_pattern-place p n ps, whole)
      (place-IsSorted p (reverse_onto ps []) [] tt (rw (reverse_onto_twice ps []) s))
