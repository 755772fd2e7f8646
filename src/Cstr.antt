-- ===== src/Cstr.antt =====
-- C strings and the functions of <string.h> and <ctype.h> that the sources call, in the "C" locale.
-- A string is the list of its bytes before the terminating NUL; a `char` is an unsigned byte, as
-- `strcmp` reads it.
pub mod Order
use libag.Common.{
  ℕ, suc, Option, none, some, ◌+◌, ◌-◌, Bool, true, false, ◌&&◌, ◌||◌, List, [], ◌∷◌, compare,
  Ordering, leb, ◌==◌, if◌then◌else◌,
}

abbrev pub Str : Type 0
Str = List ℕ

unfoldable pub tolower : ℕ → ℕ
tolower c = if leb b'A' c && leb c b'Z' then c + 32 else c

unfoldable pub toupper : ℕ → ℕ
toupper c = if leb b'a' c && leb c b'z' then c - 32 else c

-- Space, and \t \n \v \f \r.
unfoldable pub isspace : ℕ → Bool
isspace c = c == 32 || leb 9 c && leb c 13

-- Byte by byte, the end of a string below every byte.
unfoldable pub strcmp : Str → Str → Ordering
strcmp [] [] = Ordering.eq
strcmp [] (y ∷ ys) = Ordering.lt
strcmp (x ∷ xs) [] = Ordering.gt
strcmp (x ∷ xs) (y ∷ ys) = elim (compare x y) [
  | Ordering.lt ↦ Ordering.lt
  | Ordering.gt ↦ Ordering.gt
  | Ordering.eq ↦ strcmp xs ys
]

-- `strncmp(s, p, strlen(p)) == 0`
unfoldable pub has_prefix : Str → Str → Bool
has_prefix s [] = true
has_prefix [] (y ∷ ys) = false
has_prefix (x ∷ xs) (y ∷ ys) = x == y && has_prefix xs ys

-- `strchr(s, c) != NULL`, for a byte other than NUL
unfoldable pub has_char : Str → ℕ → Bool
has_char [] c = false
has_char (x ∷ xs) c = x == c || has_char xs c

-- `strpbrk(s, accept) != NULL`
unfoldable pub has_any : Str → Str → Bool
has_any [] accept = false
has_any (x ∷ xs) accept = has_char accept x || has_any xs accept

-- The offset of `strstr(s, find)` in `s`.
unfoldable pub strstr : Str → Str → Option ℕ
strstr [] find = if has_prefix [] find then some 0 else none
strstr (c ∷ s) find =
    if has_prefix (c ∷ s) find
    then some 0
    else elim (strstr s find) as (λ _. Option ℕ) [ some pos ↦ some (suc pos) | none ↦ none ]

-- `strcmp(a, b) == 0`
unfoldable pub str_eq : Str → Str → Bool
str_eq a b = elim (strcmp a b) as (λ _. Bool) [ Ordering.eq ↦ true | _ ↦ false ]
