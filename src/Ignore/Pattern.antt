-- ===== src/Ignore/Pattern.antt =====
-- `add_ignore_pattern` of ag_src/ignore.c: which list a pattern belongs to, and the insertion.
pub mod Place
pub mod Order
pub mod Effect
use libag.Common.{
  ℕ, zero, suc, ◌+◌, ◌-◌, Bool, true, false, not, ◌&&◌, ◌||◌, List, [], ◌∷◌, ◌++◌, length, get_or,
  set, take, drop, Ordering, ltb, leb, ◌==◌, if◌then◌else◌,
}
use libag.Cstr.{Str, isspace, strcmp, has_prefix, has_char}
use libag.Util.Chars.{is_fnmatch}
use libag.Ignore.Defs.{Ignores}

-- The list of a node that `patterns_p` points to.
pub data Bucket : Type 0 where
  extensions names slash_names regexes invert_regexes slash_regexes : Bucket

pub Bucket-discrete : Discrete Bucket
Bucket-discrete = hlevel

-- `pattern++` if it starts with "./": the dot goes, the slash stays.
unfoldable pub strip_dot : Str → Str
unfolding has_prefix
strip_dot pattern = if has_prefix pattern (b'.' ∷ b'/' ∷ []) then drop 1 pattern else pattern

-- The loop "Kill trailing whitespace", at `pattern_len`.
unfoldable pub trim_len : Str → ℕ → ℕ
unfolding isspace
trim_len pattern zero = 0
trim_len pattern (suc n) = if isspace (get_or pattern n 0) then trim_len pattern n else suc n

-- The byte at an index, or the terminating NUL.
abbrev char_at : Str → ℕ → ℕ
char_at s i = get_or s i 0

-- The list for a pattern, and how many bytes are skipped in front.
unfoldable pub classify : Str → Bucket × ℕ
unfolding is_fnmatch has_char
classify pattern =
    if is_fnmatch pattern
    then if char_at pattern 0 == b'*'
        && (char_at pattern 1 == b'.'
            && (has_char (drop 2 pattern) b'.' && not (is_fnmatch (drop 2 pattern))))
      then (extensions, 2)
      else if char_at pattern 0 == b'/'
      then (slash_regexes, 1)
      else if char_at pattern 0 == b'!'
      then (invert_regexes, 1)
      else (regexes, 0)
    else if char_at pattern 0 == b'/'
    then (slash_names, 1)
    else (names, 0)

-- The loop that makes room: `i` falls while the pattern is not above `patterns[i - 1]`, which
-- moves up. The result is the final `i` with the array.
unfoldable pub make_room : Str → ℕ → List Str → ℕ × List Str
make_room pattern zero patterns = (0, patterns)
make_room pattern (suc i) patterns =
    let moved = make_room pattern i (set patterns (suc i) (get_or patterns i [])) in
    elim (strcmp pattern (get_or patterns i [])) as (λ _. ℕ × List Str) [
      | Ordering.gt ↦ (suc i, patterns)
      | _ ↦ moved
    ]

-- `++*patterns_len`, the `ag_realloc` (the new cell holds nothing yet), the loop, and the store of
-- the first `pattern_len` bytes. The comparisons read all of `pattern`.
unfoldable pub insert_pattern : Str → ℕ → List Str → List Str
unfolding make_room
insert_pattern pattern pattern_len patterns =
    let (i, moved) = make_room pattern (length patterns) (patterns ++ ([] ∷ [])) in
    set moved i (take pattern_len pattern)

abbrev pub bucket : Bucket → Ignores → List Str
bucket extensions ig = ig.extensions
bucket names ig = ig.names
bucket slash_names ig = ig.slash_names
bucket regexes ig = ig.regexes
bucket invert_regexes ig = ig.invert_regexes
bucket slash_regexes ig = ig.slash_regexes

abbrev pub with_bucket : Bucket → List Str → Ignores → Ignores
with_bucket extensions ps ig = record ig { extensions = ps }
with_bucket names ps ig = record ig { names = ps }
with_bucket slash_names ps ig = record ig { slash_names = ps }
with_bucket regexes ps ig = record ig { regexes = ps }
with_bucket invert_regexes ps ig = record ig { invert_regexes = ps }
with_bucket slash_regexes ps ig = record ig { slash_regexes = ps }

-- The part behind the test for an empty pattern.
unfoldable pub store_pattern : Str → ℕ → Ignores → Ignores
unfolding insert_pattern classify
store_pattern pattern pattern_len ig =
    let (b, skip) = classify pattern in
    with_bucket b (insert_pattern (drop skip pattern) (pattern_len - skip) (bucket b ig)) ig

unfoldable pub add_ignore_pattern : Ignores → Str → Ignores
add_ignore_pattern ig given =
    let pattern = strip_dot given in
    let pattern_len = trim_len pattern (length pattern) in
    if pattern_len == 0 then ig else store_pattern pattern pattern_len ig
