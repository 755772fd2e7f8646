-- ===== src/Search/Symloop.antt =====
-- `check_symloop_enter` and `check_symloop_leave` of ag_src/search.c. The hash table is the list of
-- its keys, the last one added first.
use libag.Common.{
  ℕ, zero, suc, ◌≡◌, ◌≢◌, refl, inl, inr, Bool, true, false, ◌&&◌, ◌||◌, Option, none, some, List,
  [], ◌∷◌, ◌==◌, if◌then◌else◌, Bool-cases, arith,
}

-- `dirkey_t`: the device and the inode.
abbrev pub DirKey : Type 0
DirKey = ℕ × ℕ

pub data SymloopResult : Type 0 where
  symloop_error symloop_ok symloop_loop : SymloopResult

unfoldable pub same_key : DirKey → DirKey → Bool
same_key a b = a.0 == b.0 && a.1 == b.1

unfoldable pub find_key : DirKey → List DirKey → Bool
find_key k [] = false
find_key k (x ∷ xs) = same_key k x || find_key k xs

unfoldable pub delete_key : DirKey → List DirKey → List DirKey
delete_key k [] = []
delete_key k (x ∷ xs) = if same_key k x then xs else x ∷ delete_key k xs

-- `stat` gives the key, or fails; the result has `outkey` and the table.
unfoldable pub check_symloop_enter :
    Option DirKey → List DirKey → SymloopResult × DirKey × List DirKey
check_symloop_enter none symhash = (symloop_error, (0, 0), symhash)
check_symloop_enter (some k) symhash =
    if find_key k symhash then (symloop_loop, k, symhash) else (symloop_ok, k, k ∷ symhash)

unfoldable pub check_symloop_leave : DirKey → List DirKey → SymloopResult × List DirKey
check_symloop_leave k symhash =
    if k.0 == 0 && k.1 == 0
    then (symloop_error, symhash)
    else if find_key k symhash
    then (symloop_ok, delete_key k symhash)
    else (symloop_error, symhash)

same_key_self : (k : DirKey) → same_key k k ≡ true
unfolding same_key
same_key_self k = ground arith

not_null :
    (k : DirKey) → ◌≢◌ {A = Option DirKey} (some k) (some (0, 0)) → (k.0 == 0 && k.1 == 0) ≡ false
not_null (zero, zero) real = absurd (real refl)
not_null (suc a, b) real = ground arith
not_null (zero, suc b) real = ground arith

-- Entering a directory that is no loop, and leaving it, is no change, unless its key is that of a
-- failed `stat`.
pub leave-enter :
    (key : Option DirKey) (symhash : List DirKey)
    → key ≢ some (0, 0)
    → (check_symloop_enter key symhash).0 ≢ symloop_loop
    → (check_symloop_leave
        (check_symloop_enter key symhash).1
        (check_symloop_enter key symhash).2).1
      ≡ symhash
unfolding check_symloop_enter check_symloop_leave find_key delete_key same_key
leave-enter none symhash real free = refl
leave-enter (some k) symhash real free = elim (Bool-cases (find_key k symhash)) [
  | inl looped ↦ absurd (free (rw looped refl))
  | inr fresh ↦ rw fresh (ground (arith, same_key_self k, not_null k real))
]

-- A loop changes nothing.
pub enter_loop :
    (key : Option DirKey) (symhash : List DirKey)
    → (check_symloop_enter key symhash).0 ≡ symloop_loop
    → (check_symloop_enter key symhash).2 ≡ symhash
unfolding check_symloop_enter
enter_loop none symhash looped = refl
enter_loop (some k) symhash looped = elim (Bool-cases (find_key k symhash)) [
  | inl h ↦ rw h refl
  | inr h ↦ absurd (ground arith)
]
