-- ===== src/Ignore/Search.antt =====
-- `path_ignore_search` of ag_src/ignore.c: whether one node of patterns ignores a file.
pub mod Lookup
use libag.Common.{
  ℕ, zero, suc, ◌+◌, ◌-◌, Bool, true, false, ◌&&◌, ◌||◌, Option, none, some, List, [], ◌∷◌, ◌++◌,
  length, get_or, drop, Ordering, ◌==◌, if◌then◌else◌, Run, done, ◌>>=◌,
}
use libag.Cstr.{Str, has_prefix, strstr}
use libag.Util.BinarySearch.{binary_search}
use libag.Ignore.Defs.{Ignores}

abbrev pub is_some {ℓ} : {A : Type ℓ} → Option A → Bool
is_some (some a) = true
is_some none = false

-- `match_pos = binary_search(needle, names, 0, names_len); match_pos >= 0`
unfoldable pub found : Str → List Str → Run Bool
found needle hay =
    binary_search (suc (length hay)) needle hay 0 (length hay) >>= λ pos. done (is_some pos)

-- The first occurrence of a name in the path, if it stands between slashes or the ends.
unfoldable pub name_in_path : Str → Str → Bool
name_in_path slash_filename name = elim (strstr slash_filename name) as (λ _. Bool) [
  | none ↦ false
  | some pos ↦
      (pos == 0 || get_or slash_filename (pos - 1) 0 == b'/')
      && (get_or slash_filename (pos + length name) 0 == 0
          || get_or slash_filename (pos + length name) 0 == b'/')
]

unfoldable pub any_pattern : (Str → Bool) → List Str → Bool
any_pattern test [] = false
any_pattern test (p ∷ ps) = test p || any_pattern test ps

-- `path[0] == '.' ? path + 1 : path`
unfoldable pub undotted : Str → Str
undotted path = if get_or path 0 0 == b'.' then drop 1 path else path

-- The part of the path behind the node's own path, without its leading slash.
unfoldable pub below_node : Ignores → Str → Str
below_node ig temp =
    let rest = drop (length ig.abs_path) temp in
    if get_or rest 0 0 == b'/' then drop 1 rest else rest

-- `fnmatch` is that of <fnmatch.h> with FNM_PATHNAME, and `ackmate_dir_match` the test of the
-- option of that name, which is absent in the library.
module _ (fnmatch : Str → Str → Bool) (ackmate_dir_match : Str → Bool) where
  -- The part under `strncmp(temp, ig->abs_path, ig->abs_path_len) == 0`.
  unfoldable pub ignored_below : Ignores → Str → Run Bool
  ignored_below ig slash_filename =
      let by_parts =
        any_pattern (name_in_path slash_filename) ig.names
        || any_pattern (λ p. fnmatch p slash_filename) ig.slash_regexes in
      let by_slash_name : Run Bool =
        found slash_filename ig.slash_names >>= λ hit. done (if hit then true else by_parts) in
      found slash_filename ig.names >>= λ hit. if hit then done true else by_slash_name

  -- The part behind it.
  unfoldable pub ignored_by_regex : Ignores → Str → Str → Bool
  ignored_by_regex ig temp filename =
      if any_pattern (λ p. fnmatch p filename) ig.invert_regexes
      then false
      else if any_pattern (λ p. fnmatch p filename) ig.regexes
      then true
      else ackmate_dir_match temp

  unfoldable pub path_ignore_search : Ignores → Str → Str → Run Bool
  path_ignore_search ig path filename =
      let temp = undotted path ++ (b'/' ∷ filename) in
      let behind : Run Bool = done (ignored_by_regex ig temp filename) in
      let below : Run Bool =
        ignored_below ig (below_node ig temp) >>= λ hit. if hit then done true else behind in
      found filename ig.names >>= λ hit.
      if hit then done true else if has_prefix temp ig.abs_path then below else behind
