-- ===== src/Ignore/Load.antt =====
-- `load_ignore_patterns` of ag_src/ignore.c, and the names of the files it is called for.
use libag.Common.{
  ℕ, ◌-◌, Bool, ◌||◌, Option, none, some, List, [], ◌∷◌, length, get_or, take, ◌==◌, if◌then◌else◌,
}
use libag.Cstr.{Str}
use libag.Ignore.Defs.{Ignores}
use libag.Ignore.Pattern.{add_ignore_pattern}

-- The bytes before the first NUL.
unfoldable pub c_string : List ℕ → Str
c_string [] = []
c_string (c ∷ rest) = if c == 0 then [] else c ∷ c_string rest

-- "kill the \n"
unfoldable pub without_newline : List ℕ → List ℕ
without_newline line =
    if get_or line (length line - 1) 0 == 10 then take (length line - 1) line else line

-- The loop over the lines, as `getline` returns them, with their ends.
unfoldable pub load_lines : List (List ℕ) → Ignores → Ignores
load_lines [] ig = ig
load_lines (line ∷ rest) ig =
    if get_or line 0 0 == 10 || get_or line 0 0 == b'#'
    then load_lines rest ig
    else load_lines rest (add_ignore_pattern ig (c_string (without_newline line)))

-- `none` is a file that cannot be opened.
unfoldable pub load_ignore_patterns : Option (List (List ℕ)) → Ignores → Ignores
load_ignore_patterns none ig = ig
load_ignore_patterns (some lines) ig = load_lines lines ig

-- ".ignore"
abbrev dot_ignore : Str
dot_ignore = b'.' ∷ b'i' ∷ b'g' ∷ b'n' ∷ b'o' ∷ b'r' ∷ b'e' ∷ []

-- ".gitignore"
abbrev dot_gitignore : Str
dot_gitignore = b'.' ∷ b'g' ∷ b'i' ∷ b't' ∷ b'i' ∷ b'g' ∷ b'n' ∷ b'o' ∷ b'r' ∷ b'e' ∷ []

-- ".git/info/exclude"
abbrev git_exclude : Str
git_exclude =
    b'.' ∷ b'g' ∷ b'i' ∷ b't' ∷ b'/' ∷ b'i' ∷ b'n' ∷ b'f' ∷ b'o' ∷ b'/' ∷ b'e' ∷ b'x' ∷ b'c' ∷ b'l'
    ∷ b'u' ∷ b'd' ∷ b'e' ∷ []

-- ".hgignore"
abbrev dot_hgignore : Str
dot_hgignore = b'.' ∷ b'h' ∷ b'g' ∷ b'i' ∷ b'g' ∷ b'n' ∷ b'o' ∷ b'r' ∷ b'e' ∷ []

-- `ignore_pattern_files`, as far as the loop of `search_dir` goes.
unfoldable pub ignore_pattern_files : Bool → List Str
ignore_pattern_files skip_vcs_ignores =
    if skip_vcs_ignores
    then dot_ignore ∷ []
    else dot_ignore ∷ (dot_gitignore ∷ (git_exclude ∷ (dot_hgignore ∷ [])))
