-- ===== src/Search/Matches.antt =====
-- The array of matches of `search_buf`: `realloc_matches`, and one more match at its end.
use libag.Common.{ℕ, ◌+◌, ◌*◌, List, [], ◌∷◌, ◌++◌, length, ltb, if◌then◌else◌, Run, done, fault}
use libag.Libag.Results.{Match}

-- `matches` with `matches_size`, which is 0 as long as there is no array; the list holds the first
-- `matches_len` cells.
pub record Matches : Type 0 where
  pub matches_size : ℕ
  pub matches : List Match

-- `matches_len` is the argument of the C function: the length, and the spare cells.
unfoldable pub realloc_matches : Matches → ℕ → Matches
realloc_matches a matches_len =
    if ltb matches_len a.matches_size
    then a
    else if ltb 0 a.matches_size
    then record a { matches_size = a.matches_size * 2 }
    else record a { matches_size = 100 }

-- The store at `matches_len`, which needs a cell.
unfoldable pub add_match : Matches → ℕ → Match → Run Matches
add_match a matches_spare m =
    let room = realloc_matches a (length a.matches + matches_spare) in
    if ltb (length room.matches) room.matches_size
    then done (record room { matches = room.matches ++ (m ∷ []) })
    else fault
