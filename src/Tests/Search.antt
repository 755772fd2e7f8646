-- ===== src/Tests/Search.antt =====
-- The matchers and the tests of ag_src/util.c.
use libag.Common.{
  inr, ℕ, suc, ◌≡◌, refl, true, false, none, some, List, [], ◌∷◌, Run, done, fault, looping, ◌>>=◌,
  Returns, replicate, get_or-replicate, zero, arith, ◌≤◌,
}
use libag.Cstr.{Str, tolower, strcmp}
use libag.Util.Literal.{FirstAt, match_here, match_cell, same_char, fold}
use libag.Util.Hash.{
  Table, empty_table, find_free, insert_word, capitalize, hash_caps, hash_from, generate_hash,
  probe, check_tail, step_through, hash_strnstr,
}
use libag.Util.Hash.Correct.{literal_search-FirstAt}
use libag.Util.Hash.Reuse.{reused_table_fault}
use libag.Util.BinarySearch.{binary_search}
use libag.Util.BinarySearch.Sorted.{IsSorted}
use libag.Util.BinarySearch.Correct.{Locates, binary_search-Locates}
use libag.Util.Binary.{is_binary, is_odd_byte}
use libag.Util.Binary.Verdicts.{IsText, is_binary-nul}

program : Unit {0}
unfolding find_free insert_word capitalize hash_caps hash_from generate_hash probe check_tail
    step_through hash_strnstr match_here match_cell same_char fold tolower
program = tt

-- "one two" and "TWO"
abbrev text : List ℕ
text = b'o' ∷ (b'n' ∷ (b'e' ∷ (b' ' ∷ (b't' ∷ (b'w' ∷ (b'O' ∷ []))))))

abbrev two : List ℕ
two = b't' ∷ (b'w' ∷ (b'o' ∷ []))

literal_search_hit :
    (generate_hash two empty_table false >>= λ table. hash_strnstr text two table false)
    ≡ done (some 4)
unfolding program
literal_search_hit = refl

literal_search_case :
    (generate_hash two empty_table true >>= λ table. hash_strnstr text two table true) ≡ done none
unfolding program
literal_search_case = refl

literal_search-FirstAt_example :
    Returns
      (FirstAt false two text)
      (generate_hash two empty_table false >>= λ table. hash_strnstr text two table false)
literal_search-FirstAt_example =
    literal_search-FirstAt text two false (inr (omega arith, (omega arith, (omega arith, tt))))
      (omega arith) (omega arith)

-- "abcd", and a text with "cd" in its second and third place
abbrev long_query : List ℕ
long_query = b'a' ∷ (b'b' ∷ (b'c' ∷ (b'd' ∷ [])))

abbrev short_query : List ℕ
short_query = b'x' ∷ (b'y' ∷ (b'z' ∷ []))

abbrev bad_text : List ℕ
bad_text = b'!' ∷ (b'c' ∷ (b'd' ∷ (b'!' ∷ [])))

abbrev table_of : Run Table → Table
table_of (done table) = table
table_of fault = empty_table
table_of looping = empty_table

first_table : Table
first_table = table_of (generate_hash long_query empty_table true)

second_table : Table
second_table = table_of (generate_hash short_query first_table true)

reused_table_fault_example : hash_strnstr bad_text short_query second_table true ≡ fault
unfolding program first_table second_table
reused_table_fault_example =
    reused_table_fault bad_text long_query short_query true true {table = first_table}
      {table' = second_table} (omega arith) (omega arith) (omega arith) (omega arith) refl refl refl

-- Three names in order.
abbrev names : List Str
names = (b'a' ∷ []) ∷ ((b'b' ∷ []) ∷ ((b'b' ∷ (b'c' ∷ [])) ∷ []))

binary_search_hit : binary_search 4 (b'b' ∷ []) names 0 3 ≡ done (some 1)
unfolding binary_search strcmp
binary_search_hit = refl

names-IsSorted : IsSorted names
unfolding strcmp
names-IsSorted =
    (((λ e. ground arith), ((λ e. ground arith), tt)), (((λ e. ground arith), tt), (tt, tt)))

binary_search-Locates_example :
    Returns (Locates (b'b' ∷ []) names 0 3) (binary_search 4 (b'b' ∷ []) names 0 3)
binary_search-Locates_example =
    binary_search-Locates (b'b' ∷ []) names names-IsSorted 4 0 3 (omega arith) (omega arith)
      (omega arith)

abbrev line : List ℕ
line = b'h' ∷ (b'i' ∷ (10 ∷ []))

line-IsText : (n : ℕ) → n ≤ 3 → IsText line 0 n
unfolding is_odd_byte
line-IsText n small zero from to = ((λ e. ground arith), refl)
line-IsText n small (suc zero) from to = ((λ e. ground arith), refl)
line-IsText n small (suc (suc zero)) from to = ((λ e. ground arith), refl)
line-IsText n small (suc (suc (suc j))) from to = absurd (omega arith)

-- "hi", a line end and a NUL
abbrev with_nul : List ℕ
with_nul = b'h' ∷ (b'i' ∷ (10 ∷ (0 ∷ [])))

with_nul-IsText : IsText with_nul 0 3
unfolding is_odd_byte
with_nul-IsText zero from to = ((λ e. ground arith), refl)
with_nul-IsText (suc zero) from to = ((λ e. ground arith), refl)
with_nul-IsText (suc (suc zero)) from to = ((λ e. ground arith), refl)
with_nul-IsText (suc (suc (suc j))) from to = absurd (omega arith)

is_binary-nul_example : is_binary with_nul ≡ true
is_binary-nul_example = is_binary-nul with_nul 3 (omega arith) (omega arith) refl with_nul-IsText

-- Eight letters.
abbrev letters : List ℕ
letters = replicate 8 b'a'

letters-IsText : IsText letters 0 8
unfolding is_odd_byte
letters-IsText j from to = rw (get_or-replicate {A = ℕ} 8 j b'a' 0 to) ((λ e. ground arith), refl)
