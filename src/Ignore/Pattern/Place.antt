-- ===== src/Ignore/Pattern/Place.antt =====
-- The insertion loop of `add_ignore_pattern` as a recursion on the array read from its end.
use native.Mathlib.Nat.{zero-add}
use libag.Common.{
  ℕ, zero, suc, ◌+◌, ◌≡◌, ◌≢◌, refl, ap₂, sym, ap, ◌∙◌, List, [], ◌∷◌, ◌++◌, length, get_or, set,
  take, Ordering, gt-cases, inl, inr, arith,
}
use libag.Cstr.{Str, strcmp}
use libag.Ignore.Pattern.{make_room, insert_pattern}

-- An array whose first part is given last element first.
abbrev pub reverse_onto : List Str → List Str → List Str
reverse_onto [] acc = acc
reverse_onto (y ∷ r) acc = reverse_onto r (y ∷ acc)

-- The pattern `p` is compared, and `t` is stored: behind the last cell that is below `p`.
unfoldable pub place : Str → Str → List Str → List Str → List Str
place p t [] acc = t ∷ acc
place p t (y ∷ r) acc = elim (strcmp p y) as (λ _. List Str) [
  | Ordering.gt ↦ reverse_onto r (y ∷ (t ∷ acc))
  | _ ↦ place p t r (y ∷ acc)
]

get_or-reverse_onto :
    (r xs : List Str) (k : ℕ) (d : Str)
    → get_or (reverse_onto r xs) (length r + k) d ≡ get_or xs k d
get_or-reverse_onto [] xs k d = rw zero-add
get_or-reverse_onto (z ∷ r) xs k d =
    ap (λ n. get_or (reverse_onto r (z ∷ xs)) n d) (omega arith)
    ∙ get_or-reverse_onto r (z ∷ xs) (suc k) d

set-reverse_onto :
    (r xs : List Str) (k : ℕ) (v : Str)
    → set (reverse_onto r xs) (length r + k) v ≡ reverse_onto r (set xs k v)
set-reverse_onto [] xs k v = rw zero-add
set-reverse_onto (z ∷ r) xs k v =
    ap (λ n. set (reverse_onto r (z ∷ xs)) n v) (omega arith)
    ∙ set-reverse_onto r (z ∷ xs) (suc k) v

make_room-suc_gt :
    (p : Str) (i : ℕ) (ps : List Str)
    → strcmp p (get_or ps i []) ≡ Ordering.gt
    → make_room p (suc i) ps ≡ (suc i, ps)
unfolding make_room
make_room-suc_gt p i ps h = ground arith

make_room-suc_le :
    (p : Str) (i : ℕ) (ps : List Str)
    → strcmp p (get_or ps i []) ≢ Ordering.gt
    → make_room p (suc i) ps ≡ make_room p i (set ps (suc i) (get_or ps i []))
unfolding make_room
make_room-suc_le p i ps h = ground arith

make_room-zero : (p : Str) (ps : List Str) → make_room p zero ps ≡ (0, ps)
unfolding make_room
make_room-zero p ps = refl

pub place-cons_gt :
    (p t y : Str) (r acc : List Str)
    → strcmp p y ≡ Ordering.gt
    → place p t (y ∷ r) acc ≡ reverse_onto r (y ∷ (t ∷ acc))
unfolding place
place-cons_gt p t y r acc h = ground arith

pub place-cons_le :
    (p t y : Str) (r acc : List Str)
    → strcmp p y ≢ Ordering.gt
    → place p t (y ∷ r) acc ≡ place p t r (y ∷ acc)
unfolding place
place-cons_le p t y r acc h = ground arith

-- Reads and writes next to the border of the two parts.
below :
    (r : List Str) (y : Str) (xs : List Str) → get_or (reverse_onto r (y ∷ xs)) (length r) [] ≡ y
below r y xs =
    ap (λ n. get_or (reverse_onto r (y ∷ xs)) n []) (omega arith)
    ∙ get_or-reverse_onto r (y ∷ xs) 0 []

free :
    (r : List Str) (y g v : Str) (acc : List Str)
    → set (reverse_onto r (y ∷ (g ∷ acc))) (suc (length r)) v ≡ reverse_onto r (y ∷ (v ∷ acc))
free r y g v acc =
    ap (λ n. set (reverse_onto r (y ∷ (g ∷ acc))) n v) (omega arith)
    ∙ set-reverse_onto r (y ∷ (g ∷ acc)) 1 v

store : ℕ × List Str → Str → List Str
store moved t = set moved.1 moved.0 t

module _ (p t y : Str) (r : List Str) (g : Str) (acc : List Str) where
  abbrev before : List Str
  before = reverse_onto r (y ∷ (g ∷ acc))

  make_room-place_stop :
      strcmp p y ≡ Ordering.gt
      → store (make_room p (suc (length r)) before) t ≡ place p t (y ∷ r) acc
  unfolding store
  make_room-place_stop gt =
      rw (make_room-suc_gt p (length r) before (ap (strcmp p) (below r y (g ∷ acc)) ∙ gt))
        (free r y g t acc ∙ sym (place-cons_gt p t y r acc gt))

  make_room-place_move :
      strcmp p y ≢ Ordering.gt
      → store (make_room p (length r) (reverse_onto r (y ∷ (y ∷ acc)))) t ≡ place p t r (y ∷ acc)
      → store (make_room p (suc (length r)) before) t ≡ place p t (y ∷ r) acc
  make_room-place_move ne ih =
      ap (λ m. store m t)
        (make_room-suc_le p (length r) before (rw (below r y (g ∷ acc)) ne)
          ∙ ap (make_room p (length r))
              (ap (set before (suc (length r))) (below r y (g ∷ acc)) ∙ free r y g y acc))
      ∙ ih
      ∙ sym (place-cons_le p t y r acc ne)

-- From an array whose cell `length r` is free.
make_room-place :
    (p t : Str) (r : List Str) (g : Str) (acc : List Str)
    → store (make_room p (length r) (reverse_onto r (g ∷ acc))) t ≡ place p t r acc
make_room-place p t [] g acc = unfold store make_room place in refl
make_room-place p t (y ∷ r) g acc = elim (gt-cases (strcmp p y)) [
  | inl gt ↦ make_room-place_stop p t y r g acc gt
  | inr le ↦ make_room-place_move p t y r g acc le (make_room-place p t r y (y ∷ acc))
]

reverse_onto-append : (r xs ys : List Str) → reverse_onto r xs ++ ys ≡ reverse_onto r (xs ++ ys)
reverse_onto-append [] xs ys = refl
reverse_onto-append (z ∷ r) xs ys = reverse_onto-append r (z ∷ xs) ys

pub reverse_onto_twice : (ps r : List Str) → reverse_onto (reverse_onto ps r) [] ≡ reverse_onto r ps
reverse_onto_twice [] r = refl
reverse_onto_twice (z ∷ ps) r = reverse_onto_twice ps (z ∷ r)

length-reverse_onto : (r xs : List Str) → length (reverse_onto r xs) ≡ length r + length xs
length-reverse_onto [] xs = omega arith
length-reverse_onto (z ∷ r) xs = omega (arith, length-reverse_onto r (z ∷ xs))

-- The C loop and store come to `place`.
pub insert_pattern-place :
    (p : Str) (n : ℕ) (ps : List Str)
    → insert_pattern p n ps ≡ place p (take n p) (reverse_onto ps []) []
unfolding insert_pattern store
insert_pattern-place p n ps =
    ap₂ (λ k xs. store (make_room p k xs) (take n p)) size
      (ap (λ xs. xs ++ ([] ∷ [])) (sym back)
        ∙ reverse_onto-append (reverse_onto ps []) [] ([] ∷ []))
    ∙ make_room-place p (take n p) (reverse_onto ps []) [] []
  where
    back : reverse_onto (reverse_onto ps []) [] ≡ ps
    back = reverse_onto_twice ps []

    size : length ps ≡ length (reverse_onto ps [])
    size = omega (arith, length-reverse_onto ps [])
