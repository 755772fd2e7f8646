-- ===== src/Util/BoyerMoore.antt =====
-- `boyer_moore_strnstr` of ag_src/util.c, and `generate_alpha_skip` and `generate_find_skip`, which
-- fill its two tables.
pub mod Skips
pub mod Sound
use libag.Common.{
  ℕ, zero, suc, ◌+◌, ◌-◌, Bool, true, false, Option, none, some, List, [], ◌∷◌, length, get_or, set,
  drop, replicate, max, ltb, ◌==◌, if◌then◌else◌, Run, done, fault, looping,
}
use libag.Cstr.{tolower, toupper}
use libag.Util.Literal.{same_char}

abbrev put : (ℕ → ℕ) → ℕ → ℕ → ℕ → ℕ
put table c v j = if j == c then v else table j

-- The table after `i` rounds of the second loop, for a pattern of `last + 1` bytes.
unfoldable pub alpha_rounds : List ℕ → Bool → ℕ → ℕ → ℕ → ℕ
alpha_rounds find cs last zero = λ c. last + 1
alpha_rounds find cs last (suc i) =
    let table = alpha_rounds find cs last i in
    if cs
    then put table (get_or find i 0) (last - i)
    else put (put table (tolower (get_or find i 0)) (last - i)) (toupper (get_or find i 0))
        (last - i)

-- On an empty pattern `f_len--` wraps, and the loop leaves the pattern.
unfoldable pub generate_alpha_skip : List ℕ → Bool → Run (ℕ → ℕ)
generate_alpha_skip [] cs = fault
generate_alpha_skip (c ∷ find) cs = done (alpha_rounds (c ∷ find) cs (length find) (length find))

abbrev same_byte : Bool → ℕ → ℕ → Bool
same_byte cs a b = if cs then a == b else tolower a == tolower b

-- Whether the first list is the beginning of the second.
unfoldable pub agree : Bool → List ℕ → List ℕ → Bool
agree cs [] t = true
agree cs (x ∷ xs) [] = false
agree cs (x ∷ xs) (y ∷ ys) = if same_byte cs y x then agree cs xs ys else false

unfoldable pub is_prefix : List ℕ → ℕ → Bool → Bool
is_prefix s pos cs = agree cs (drop pos s) s

-- The loop of `suffix_len` at `i`, with so many rounds left.
unfoldable pub suffix_rounds : List ℕ → ℕ → Bool → ℕ → ℕ → ℕ
suffix_rounds s pos cs zero i = i
suffix_rounds s pos cs (suc n) i =
    let rest = suffix_rounds s pos cs n (i + 1) in
    if same_byte cs (get_or s (pos - i) 0) (get_or s (length s - i - 1) 0) then rest else i

unfoldable pub suffix_len : List ℕ → ℕ → Bool → ℕ
suffix_len s pos cs = suffix_rounds s pos cs pos 0

-- The first loop of `generate_find_skip`, from `i` down.
unfoldable pub prefix_rounds : List ℕ → Bool → ℕ → ℕ → List ℕ → List ℕ
prefix_rounds find cs zero last_prefix sl = sl
prefix_rounds find cs (suc i) last_prefix sl =
    let last = if is_prefix find (suc i) cs then suc i else last_prefix in
    prefix_rounds find cs i last (set sl i (last + (length find - suc i)))

-- One round of the second loop.
unfoldable pub suffix_round : List ℕ → Bool → ℕ → List ℕ → List ℕ
suffix_round find cs i sl =
    let s_len = suffix_len find i cs in
    if get_or find (i - s_len) 0 == get_or find (length find - 1 - s_len) 0
    then sl
    else set sl (length find - 1 - s_len) (length find - 1 - i + s_len)

-- The array after `i` rounds of it.
unfoldable pub find_rounds : List ℕ → Bool → ℕ → List ℕ → List ℕ
find_rounds find cs zero sl = sl
find_rounds find cs (suc i) sl = suffix_round find cs i (find_rounds find cs i sl)

unfoldable pub generate_find_skip : List ℕ → Bool → List ℕ
generate_find_skip find cs =
    find_rounds find cs (length find)
      (prefix_rounds find cs (length find) (length find) (replicate (length find) 0))

-- The end of the inner loop: the pattern is found at an index, or `i` and `pos` at a mismatch, or the
-- loop has left the text in front.
pub data Back : Type 0 where
  found_at : ℕ → Back
  differs : ℕ → ℕ → Back
  before : Back

-- The inner loop at `i + 1` and `pos + 1`.
unfoldable pub compare_back : List ℕ → List ℕ → Bool → ℕ → ℕ → Back
compare_back s find cs zero pos = found_at pos
compare_back s find cs (suc i) zero = before
compare_back s find cs (suc i) (suc pos) =
    let rest = compare_back s find cs i pos in
    if same_char cs (get_or s pos 0) (get_or find i 0) then rest else differs i pos

module _ (s find : List ℕ) (cs : Bool) (alpha_skip : ℕ → ℕ) (find_skip : List ℕ) where
  unfoldable pub moore_rounds : ℕ → ℕ → Run (Option ℕ)
  moore_rounds zero pos = looping
  moore_rounds (suc fuel) pos =
      let step = elim (compare_back s find cs (length find) (pos + 1)) as (λ _. Run (Option ℕ)) [
        | found_at at ↦ done (some at)
        | before ↦ fault
        | differs i p ↦
            moore_rounds fuel (p + max (alpha_skip (get_or s p 0)) (get_or find_skip i 0))
      ] in
      if ltb pos (length s) then step else done none

  -- `f_len - 1` wraps for an empty pattern, and no round is made.
  unfoldable pub boyer_moore_strnstr : Run (Option ℕ)
  boyer_moore_strnstr =
      if length find == 0 then done none else moore_rounds (length s + 1) (length find - 1)
