-- ===== src/Util/Chars.antt =====
-- The character tests of ag_src/util.c: `is_regex`, `is_fnmatch`, `is_lowercase` and word bytes.
use libag.Common.{ℕ, Bool, true, false, ◌&&◌, ◌||◌, [], ◌∷◌, leb, ltb, ◌==◌, if◌then◌else◌}
use libag.Cstr.{Str, has_any, has_char}

abbrev regex_chars : Str
regex_chars = b'$' ∷ b'(' ∷ b')' ∷ b'*' ∷ b'+' ∷ b'.' ∷ b'?' ∷ b'[' ∷ 0x5c ∷ b'^' ∷ b'{' ∷ b'|' ∷ []

unfoldable pub is_regex : Str → Bool
unfolding has_any has_char
is_regex query = has_any query regex_chars

abbrev fnmatch_chars : Str
fnmatch_chars = b'!' ∷ b'*' ∷ b'?' ∷ b'[' ∷ b']' ∷ []

unfoldable pub is_fnmatch : Str → Bool
unfolding has_any has_char
is_fnmatch filename = has_any filename fnmatch_chars

-- `isupper` in the "C" locale; `!isascii(c)` for a byte is `c > 127`.
unfoldable pub is_lowercase : Str → Bool
is_lowercase [] = true
is_lowercase (c ∷ s) = if ltb 127 c || leb b'A' c && leb c b'Z' then false else is_lowercase s

-- The entry of `wordchar_table` that `init_wordchar_table` writes.
unfoldable pub is_wordchar : ℕ → Bool
is_wordchar ch =
    leb b'a' ch && leb ch b'z'
    || leb b'A' ch && leb ch b'Z'
    || leb b'0' ch && leb ch b'9'
    || ch == b'_'
