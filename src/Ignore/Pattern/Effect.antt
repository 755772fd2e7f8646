-- ===== src/Ignore/Pattern/Effect.antt =====
-- `add_ignore_pattern` on a whole node: what it keeps sorted, and when it does not.
use mathlib.Core.List.{Perm}
use mathlib.Core.List.Perm
use mathlib.Core.Logic.{ite, if_pos, if_neg}
use libag.Common.{
  ℕ, ◌-◌, ◌≡◌, ◌≢◌, refl, ap, List, [], ◌∷◌, ◌++◌, length, take, drop, Ordering, if◌then◌else◌,
  ◌==◌, ◌⊎◌, take_all, take_prefix, append-nil, ◌∙◌, sym, length-drop, ==_of_ne, ℕ_discrete, inl,
  inr, arith,
}
use libag.Cstr.{Str, strcmp}
use libag.Util.BinarySearch.Sorted.{IsSorted}
use libag.Ignore.Defs.{Ignores}
use libag.Ignore.Pattern.{
  Bucket, Bucket-discrete, extensions, names, slash_names, regexes, invert_regexes, slash_regexes,
  strip_dot, trim_len, classify, bucket, with_bucket, insert_pattern, store_pattern,
  add_ignore_pattern,
}
use libag.Cstr.Order.{strcmp_append}
use libag.Ignore.Pattern.Place.{insert_pattern-place, place-cons_gt}
use libag.Ignore.Pattern.Order.{insert_pattern-IsSorted, insert_pattern-perm}

-- Every list of the node is in the order of `strcmp`, which `binary_search` needs.
abbrev pub IsValid : Ignores → Type 0
IsValid ig = (b : Bucket) → IsSorted (bucket b ig)

bucket-with_bucket_self :
    (b : Bucket) (ps : List Str) (ig : Ignores) → bucket b (with_bucket b ps ig) ≡ ps
bucket-with_bucket_self extensions ps ig = refl
bucket-with_bucket_self names ps ig = refl
bucket-with_bucket_self slash_names ps ig = refl
bucket-with_bucket_self regexes ps ig = refl
bucket-with_bucket_self invert_regexes ps ig = refl
bucket-with_bucket_self slash_regexes ps ig = refl

bucket-with_bucket_ne :
    (c b : Bucket) (ps : List Str) (ig : Ignores)
    → c ≢ b
    → bucket c (with_bucket b ps ig) ≡ bucket c ig
bucket-with_bucket_ne c b ps ig ne = ground arith

with_bucket-IsValid :
    (b : Bucket) (ps : List Str) (ig : Ignores)
    → IsSorted ps
    → IsValid ig
    → IsValid (with_bucket b ps ig)
with_bucket-IsValid b ps ig s v c = elim (Bucket-discrete c b) [
  | yes e ↦ rw (e, bucket-with_bucket_self b ps ig) s
  | no ne ↦ rw (bucket-with_bucket_ne c b ps ig ne) (v c)
]

store_pattern-IsValid :
    (p : Str) (n : ℕ) (ig : Ignores) → n ≡ length p → IsValid ig → IsValid (store_pattern p n ig)
unfolding store_pattern
store_pattern-IsValid p n ig h v =
    with_bucket-IsValid b _ ig
      (insert_pattern-IsSorted (drop skip p) (n - skip) (bucket b ig)
        (take_all (n - skip) (drop skip p) (omega (arith, length-drop {0} skip p))) (v b))
      v
  where
    b : Bucket
    b = (classify p).0

    skip : ℕ
    skip = (classify p).1

-- The pattern behind its leading dot, and its length without trailing white space.
abbrev pub kept_len : Str → ℕ
kept_len given = trim_len (strip_dot given) (length (strip_dot given))

-- The pattern ends in no white space.
abbrev pub IsTrimmed : Str → Type 0
IsTrimmed given = kept_len given ≡ length (strip_dot given)

add_ignore_pattern-cases :
    (ig : Ignores) (given : Str)
    → ((kept_len given ≡ 0) × (add_ignore_pattern ig given ≡ ig))
      ⊎ ((kept_len given ≢ 0)
          × (add_ignore_pattern ig given ≡ store_pattern (strip_dot given) (kept_len given) ig))
unfolding add_ignore_pattern
add_ignore_pattern-cases ig given = elim (ℕ_discrete (kept_len given) 0) [
  | yes e ↦ inl (e, rw e refl)
  | no ne ↦ inr (ne, rw (==_of_ne (kept_len given) 0 ne) refl)
]

-- A pattern that ends in no white space leaves every list of the node sorted, so that
-- `binary_search` may be used on it.
pub add_ignore_pattern-IsValid :
    (ig : Ignores) (given : Str)
    → IsTrimmed given
    → IsValid ig
    → IsValid (add_ignore_pattern ig given)
add_ignore_pattern-IsValid ig given trimmed v = elim (add_ignore_pattern-cases ig given) [
  | inl (e, same) ↦ rw same v
  | inr (ne, stored) ↦ rw stored (store_pattern-IsValid _ _ ig trimmed v)
]

-- What a pattern adds to a list of the node: nothing, or itself without the leading dot, without
-- the bytes that `classify` skips and without trailing white space.
pub addition : Str → Bucket → List Str
addition given c =
    let (b, skip) = classify (strip_dot given) in
    if kept_len given == 0
    then []
    else ite (Bucket-discrete c b) (take (kept_len given - skip) (drop skip (strip_dot given)) ∷ [])
        []

store_pattern-perm :
    (p : Str) (n : ℕ) (ig : Ignores) (c : Bucket)
    → let (b, skip) = classify p in
      Perm
        (bucket c (store_pattern p n ig))
        (ite (Bucket-discrete c b) (take (n - skip) (drop skip p) ∷ []) [] ++ bucket c ig)
unfolding store_pattern
store_pattern-perm p n ig c = elim (Bucket-discrete c b) [
  | yes e ↦
      rw
        (
          if_pos (Bucket-discrete c b) e,
          e,
          bucket-with_bucket_self b (insert_pattern q k (bucket b ig)) ig,
        )
        (insert_pattern-perm q k (bucket b ig))
  | no ne ↦
      rw
        (
          if_neg (Bucket-discrete c b) ne,
          bucket-with_bucket_ne c b (insert_pattern q k (bucket b ig)) ig ne,
        )
        (Perm.refl _)
]
  where
    b : Bucket
    b = (classify p).0

    k : ℕ
    k = n - (classify p).1

    q : Str
    q = drop (classify p).1 p

-- Every list of the node gets what `addition` says, and keeps what it had.
pub add_ignore_pattern-addition :
    (ig : Ignores) (given : Str) (c : Bucket)
    → Perm (bucket c (add_ignore_pattern ig given)) (addition given c ++ bucket c ig)
unfolding addition
add_ignore_pattern-addition ig given c = elim (add_ignore_pattern-cases ig given) [
  | inl (e, same) ↦ rw (same, e) (Perm.refl _)
  | inr (ne, stored) ↦ rw (stored, ==_of_ne (kept_len given) 0 ne) (store_pattern-perm _ _ ig c)
]

insert_pattern_gt :
    (p y : Str) (n : ℕ)
    → strcmp p y ≡ Ordering.gt
    → insert_pattern p n (y ∷ []) ≡ y ∷ (take n p ∷ [])
insert_pattern_gt p y n h = insert_pattern-place p n (y ∷ []) ∙ place-cons_gt p (take n p) y [] [] h

tab_below_space : (t w : Str) → strcmp (t ++ (b' ' ∷ [])) (t ++ (9 ∷ w)) ≡ Ordering.gt
unfolding strcmp
tab_below_space t w = strcmp_append t (b' ' ∷ []) (9 ∷ w)

longer_above : (t w : Str) → strcmp (t ++ (9 ∷ w)) t ≡ Ordering.gt
unfolding strcmp
longer_above t w = ap (strcmp (t ++ (9 ∷ w))) (sym (append-nil t)) ∙ strcmp_append t (9 ∷ w) []

-- Where white space behind the pattern is cut off, the place is still chosen by the uncut pattern:
-- a name with a tab in it then stands in front of the pattern that it continues, and the list is
-- not sorted.
pub insert_pattern_unsorted :
    (t w : Str) → ¬ IsSorted (insert_pattern (t ++ (b' ' ∷ [])) (length t) ((t ++ (9 ∷ w)) ∷ []))
insert_pattern_unsorted t w s =
    (rw
        (
          insert_pattern_gt (t ++ (b' ' ∷ [])) (t ++ (9 ∷ w)) (length t) (tab_below_space t w),
          take_prefix t (b' ' ∷ []),
        )
        at s).0.0
      (longer_above t w)
