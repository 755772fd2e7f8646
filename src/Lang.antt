-- ===== src/Lang.antt =====
-- The file types of ag_src/lang.c: `make_lang_regex` and `combine_file_extensions`.
pub mod Regex
pub mod Combine
use libag.Common.{
  ℕ, zero, suc, ◌+◌, ◌*◌, Bool, true, false, List, [], ◌∷◌, ◌++◌, length, ltb, leb, ◌==◌,
  if◌then◌else◌, Run, done, fault, looping, ◌>>=◌,
}
use libag.Cstr.{Str}

-- The buffer of the expression: its capacity, and the `regex_length` bytes that are written.
pub record Buffer : Type 0 where
  pub regex_capacity : ℕ
  pub regex : List ℕ

-- A store of bytes at `regex_length`, with so many bytes behind them that are written as well.
unfoldable pub append : Buffer → List ℕ → ℕ → Run Buffer
append b bytes more =
    if leb (length b.regex + length bytes + more) b.regex_capacity
    then done (record b { regex = b.regex ++ bytes })
    else fault

-- The loop that doubles the capacity until `need` bytes fit.
unfoldable pub grow_regex : ℕ → ℕ → Buffer → Run Buffer
grow_regex zero need b = looping
grow_regex (suc fuel) need b =
    let rest = grow_regex fuel need (record b { regex_capacity = b.regex_capacity * 2 }) in
    if ltb b.regex_capacity need then rest else done b

-- The bar before an extension that is not the first.
abbrev pub bar : Bool → List ℕ
bar true = b'|' ∷ []
bar false = []

-- One round: the room, the bar, and `strcpy` with its NUL.
unfoldable pub add_extension : Bool → Buffer → Str → Run Buffer
add_extension subsequent b extension =
    let need = length b.regex + length extension + 3 + length (bar subsequent) in
    grow_regex (need + 1) need b >>= λ room.
    append room (bar subsequent) 0 >>= λ barred. append barred extension 1

unfoldable pub add_extensions : Bool → Buffer → List Str → Run Buffer
add_extensions subsequent b [] = done b
add_extensions subsequent b (extension ∷ rest) =
    add_extension subsequent b extension >>= λ b'. add_extensions true b' rest

-- `\.(`
abbrev pub opening : List ℕ
opening = 0x5c ∷ (b'.' ∷ (b'(' ∷ []))

-- `)$`
abbrev pub closing : List ℕ
closing = b')' ∷ (b'$' ∷ [])

-- The bytes before the NUL of the result.
unfoldable pub make_lang_regex : List Str → Run (List ℕ)
make_lang_regex exts =
    add_extensions false (record { regex_capacity = 100; regex = opening }) exts >>= λ b.
    append b closing 1 >>= λ closed. done closed.regex

abbrev pub ext_capacity : ℕ
ext_capacity = 100

-- The `do` loop over the extensions of a language, which has at least one: at the capacity it breaks.
-- The cells of the array are a list, since every extension in the table is shorter than a cell.
unfoldable pub add_language : List Str → List Str → List Str
add_language [] exts = exts
add_language (ext ∷ rest) exts =
    if length exts == ext_capacity then exts else add_language rest (exts ++ (ext ∷ []))

-- `languages` are the extensions of the languages that are asked for. A language without one would be
-- read through NULL.
unfoldable pub combine_file_extensions : List (List Str) → List Str → Run (List Str)
combine_file_extensions [] exts = done exts
combine_file_extensions ([] ∷ languages) exts =
    if length exts == ext_capacity then combine_file_extensions languages exts else fault
combine_file_extensions ((ext ∷ more) ∷ languages) exts =
    combine_file_extensions languages (add_language (ext ∷ more) exts)
