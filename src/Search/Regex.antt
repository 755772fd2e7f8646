-- ===== src/Search/Regex.antt =====
-- The regular expressions of `search_buf` of ag_src/search.c, over the whole buffer or line by line,
-- and `buf_getline` of ag_src/util.c.
pub mod Bounds
use libag.Common.{
  ℕ, zero, suc, ◌+◌, ◌-◌, Bool, true, false, ◌&&◌, Option, none, some, List, [], ◌∷◌, length, take,
  drop, ltb, leb, ◌==◌, if◌then◌else◌, Run, done, looping, ◌>>=◌,
}
use libag.Libag.Results.{Match}
use libag.Search.Matches.{Matches, add_match}

-- The length of the line at the front of the rest of the buffer, without its end.
unfoldable pub line_len : List ℕ → ℕ
line_len [] = 0
line_len (c ∷ rest) = if c == 10 then 0 else suc (line_len rest)

unfoldable pub buf_getline : List ℕ → ℕ → ℕ
buf_getline buf buf_offset = line_len (drop buf_offset buf)

-- `pcre_exec` on a subject from an offset on: the bounds of the match in the subject, or none.
abbrev pub Exec : Type 0
Exec = List ℕ → ℕ → Option (ℕ × ℕ)

-- Where the search goes on: a match of length zero is stepped over.
unfoldable pub behind : ℕ → ℕ → ℕ
behind start end = if start == end then end + 1 else end

module _ (pcre_exec : Exec) (max_matches_per_file matches_spare : ℕ) where
  unfoldable pub reached : ℕ → Bool
  reached matches_len = ltb 0 max_matches_per_file && leb max_matches_per_file matches_len

  module _ (buf : List ℕ) where
    -- The loop under `opts.multiline`.
    unfoldable pub multiline_loop : ℕ → ℕ → Matches → Run Matches
    multiline_loop zero buf_offset a = looping
    multiline_loop (suc fuel) buf_offset a =
        let next = multiline_loop fuel in
        let look : Run Matches = elim (pcre_exec buf buf_offset) as (λ _. Run Matches) [
          | none ↦ done a
          | some (start, end) ↦
              add_match a matches_spare (record { start = start; end = end }) >>= λ a'.
              if reached (length a'.matches) then done a' else next (behind start end) a'
        ] in
        if ltb buf_offset (length buf) then look else done a

    -- The inner loop over a line that starts at `buf_offset`. The Boolean says that the limit is
    -- reached, where the code leaves both loops.
    unfoldable pub line_loop : ℕ → List ℕ → ℕ → ℕ → Matches → Run (Matches × Bool)
    line_loop zero line buf_offset line_offset a = looping
    line_loop (suc fuel) line buf_offset line_offset a =
        let next = line_loop fuel line buf_offset in
        let look : Run (Matches × Bool) =
          elim (pcre_exec line line_offset) as (λ _. Run (Matches × Bool)) [
            | none ↦ done (a, false)
            | some (start, end) ↦
                let line_to_buf = buf_offset + line_offset in
                add_match a matches_spare
                  (record { start = start + line_to_buf; end = end + line_to_buf })
                >>= λ a'.
                    if reached (length a'.matches)
                    then done (a', true)
                    else next (behind start end) a'
          ] in
        if ltb line_offset (length line) then look else done (a, false)

    unfoldable pub lines_loop : ℕ → ℕ → Matches → Run Matches
    lines_loop zero buf_offset a = looping
    lines_loop (suc fuel) buf_offset a =
        let next = lines_loop fuel in
        let len = buf_getline buf buf_offset in
        let line = take len (drop buf_offset buf) in
        let look : Run Matches = line_loop (len + 1) line buf_offset 0 a >>= λ r.
        if r.1 then done r.0 else next (buf_offset + len + 1) r.0 in
        if ltb buf_offset (length buf) then look else done a

    unfoldable pub search_regex : Bool → Matches → Run Matches
    search_regex multiline a =
        if multiline then multiline_loop (length buf + 1) 0 a else lines_loop (length buf + 1) 0 a
