-- ===== src/Lang/Combine.antt =====
-- `combine_file_extensions` keeps the first hundred extensions.
use libag.Common.{
  ℕ, zero, suc, ◌≤◌, ◌≡◌, ◌≢◌, refl, sym, ap, ◌∙◌, List, [], ◌∷◌, ◌++◌, append-nil, append_assoc,
  All, length, length-append, take, take_all, take_prefix, ==_of_ne, ℕ_discrete, done, arith,
}
use libag.Cstr.{Str}
use libag.Lang.{ext_capacity, add_language, combine_file_extensions}

pub joined_exts : List (List Str) → List Str
joined_exts [] = []
joined_exts (exts ∷ rest) = exts ++ joined_exts rest

abbrev pub HasSome : List Str → Type 0
HasSome exts = exts ≢ []

take-append_full : (n : ℕ) (xs ys : List Str) → length xs ≡ n → take n (xs ++ ys) ≡ xs
take-append_full n xs ys e = ap (λ k. take k (xs ++ ys)) (sym e) ∙ take_prefix xs ys

-- A list that is not longer than the capacity grows up to it.
add_language-take :
    (more exts : List Str)
    → length exts ≤ ext_capacity
    → add_language more exts ≡ take ext_capacity (exts ++ more)
unfolding add_language
add_language-take [] exts le =
    sym (ap (λ l. take ext_capacity l) (append-nil exts) ∙ take_all ext_capacity exts le)
add_language-take (ext ∷ rest) exts le = elim (ℕ_discrete (length exts) ext_capacity) [
  | yes full ↦ rw (full) (sym (take-append_full ext_capacity exts (ext ∷ rest) full))
  | no room ↦ rw (==_of_ne (length exts) ext_capacity room) (
      add_language-take rest (exts ++ (ext ∷ [])) (omega (arith, length-append {0} exts (ext ∷ [])))
      ∙ ap (λ l. take ext_capacity l) (append_assoc exts (ext ∷ []) rest))
]

length-take_le : (n : ℕ) (xs : List Str) → length (take n xs) ≤ n
length-take_le zero xs = omega arith
length-take_le (suc n) [] = omega arith
length-take_le (suc n) (x ∷ xs) = omega (arith, length-take_le n xs)

take-take_append : (n : ℕ) (xs ys : List Str) → take n (take n xs ++ ys) ≡ take n (xs ++ ys)
take-take_append zero xs ys = refl
take-take_append (suc n) [] ys = refl
take-take_append (suc n) (x ∷ xs) ys = ap (λ l. x ∷ l) (take-take_append n xs ys)

combine-take :
    (languages : List (List Str)) (exts : List Str)
    → All HasSome languages
    → length exts ≤ ext_capacity
    → combine_file_extensions languages exts
      ≡ done (take ext_capacity (exts ++ joined_exts languages))
unfolding combine_file_extensions joined_exts
combine-take [] exts some_ext le =
    ap done (sym (ap (λ l. take ext_capacity l) (append-nil exts) ∙ take_all ext_capacity exts le))
combine-take ([] ∷ languages) exts some_ext le = absurd (some_ext.0 refl)
combine-take ((ext ∷ more) ∷ languages) exts some_ext le =
    combine-take languages (add_language (ext ∷ more) exts) some_ext.1 (
      rw (add_language-take (ext ∷ more) exts le)
        (length-take_le ext_capacity (exts ++ (ext ∷ more))))
    ∙ ap done (
        ap (λ l. take ext_capacity (l ++ joined_exts languages))
          (add_language-take (ext ∷ more) exts le)
        ∙ take-take_append ext_capacity (exts ++ (ext ∷ more)) (joined_exts languages)
        ∙ ap (λ l. take ext_capacity l) (append_assoc exts (ext ∷ more) (joined_exts languages)))

-- For languages with at least one extension each the result is the first hundred extensions, in the
-- order of the languages.
pub combine_file_extensions-take :
    (languages : List (List Str))
    → All HasSome languages
    → combine_file_extensions languages [] ≡ done (take ext_capacity (joined_exts languages))
combine_file_extensions-take languages some_ext = combine-take languages [] some_ext (omega arith)
