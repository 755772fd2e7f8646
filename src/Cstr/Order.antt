-- ===== src/Cstr/Order.antt =====
-- `strcmp` is a total order on strings.
use libag.Common.{◌≡◌, ◌≢◌, refl, inl, inr, [], ◌∷◌, ◌++◌, Ordering, Ordering-cases, arith}
use libag.Cstr.{Str, strcmp}

-- `strcmp(a, b) <= 0`
abbrev pub LeStr : Str → Str → Type 0
LeStr a b = strcmp a b ≢ Ordering.gt

pub strcmp_self : (a : Str) → strcmp a a ≡ Ordering.eq
unfolding strcmp
strcmp_self [] = refl
strcmp_self (x ∷ xs) = ground (arith, strcmp_self xs)

pub strcmp-eq : (a b : Str) → strcmp a b ≡ Ordering.eq → a ≡ b
unfolding strcmp
strcmp-eq [] [] h = refl
strcmp-eq [] (y ∷ ys) h = ground arith
strcmp-eq (x ∷ xs) [] h = ground arith
strcmp-eq (x ∷ xs) (y ∷ ys) h = ground (arith, strcmp-eq xs ys)

pub strcmp_lt_swap : (a b : Str) → strcmp a b ≡ Ordering.lt → strcmp b a ≡ Ordering.gt
unfolding strcmp
strcmp_lt_swap [] [] h = ground arith
strcmp_lt_swap [] (y ∷ ys) h = refl
strcmp_lt_swap (x ∷ xs) [] h = ground arith
strcmp_lt_swap (x ∷ xs) (y ∷ ys) h = ground (arith, strcmp_lt_swap xs ys)

pub strcmp_gt_swap : (a b : Str) → strcmp a b ≡ Ordering.gt → strcmp b a ≡ Ordering.lt
unfolding strcmp
strcmp_gt_swap [] [] h = ground arith
strcmp_gt_swap [] (y ∷ ys) h = ground arith
strcmp_gt_swap (x ∷ xs) [] h = refl
strcmp_gt_swap (x ∷ xs) (y ∷ ys) h = ground (arith, strcmp_gt_swap xs ys)

pub strcmp_lt_trans :
    (a b c : Str) → strcmp a b ≡ Ordering.lt → strcmp b c ≢ Ordering.gt → strcmp a c ≡ Ordering.lt
unfolding strcmp
strcmp_lt_trans [] [] c h k = ground arith
strcmp_lt_trans [] (y ∷ ys) [] h k = absurd (k refl)
strcmp_lt_trans [] (y ∷ ys) (z ∷ zs) h k = refl
strcmp_lt_trans (x ∷ xs) [] c h k = ground arith
strcmp_lt_trans (x ∷ xs) (y ∷ ys) [] h k = absurd (k refl)
strcmp_lt_trans (x ∷ xs) (y ∷ ys) (z ∷ zs) h k = ground (arith, strcmp_lt_trans xs ys zs)

pub LeStr-refl : (a : Str) → LeStr a a
LeStr-refl a h = ground (arith, strcmp_self a)

pub LeStr-trans : (a b c : Str) → LeStr a b → LeStr b c → LeStr a c
LeStr-trans a b c h k = elim (Ordering-cases (strcmp a b)) [
  | inl lt ↦ ground (arith, strcmp_lt_trans a b c lt k)
  | inr (inl eq) ↦ ground (arith, strcmp-eq a b eq)
  | inr (inr gt) ↦ absurd (h gt)
]

pub LeStr-total : (a b : Str) → strcmp a b ≡ Ordering.gt → LeStr b a
LeStr-total a b h = ground (arith, strcmp_gt_swap a b h)

-- A common front does not matter.
pub strcmp_append : (t a b : Str) → strcmp (t ++ a) (t ++ b) ≡ strcmp a b
unfolding strcmp
strcmp_append [] a b = refl
strcmp_append (x ∷ t) a b = ground (arith, strcmp_append t a b)
