-- ===== src/Search/Invert.antt =====
-- `invert_matches` of ag_src/util.c, in place on the array of matches.
pub mod Stuck
use libag.Common.{
  ℕ, zero, suc, ◌+◌, ◌-◌, Bool, true, false, ◌&&◌, none, some, List, get_elem?, set, length, get_or,
  ltb, ◌==◌, if◌then◌else◌, Run, done, fault, looping, ◌>>=◌,
}
use libag.Libag.Results.{Match, sub_size}

-- The local variables, and all cells of the array.
pub record Inversion : Type 0 where
  pub cells : List Match
  pub next_match : Match
  pub match_read_index : ℕ
  pub inverted_match_count : ℕ
  pub inverted_match_start : ℕ
  pub last_line_end : ℕ
  pub in_inverted_match : Bool

unfoldable pub store_cell : List Match → ℕ → Match → Run (List Match)
store_cell cells i m = if ltb i (length cells) then done (set cells i m) else fault

-- A match of the result, which ends at `end`.
unfoldable pub store_inverted : ℕ → Inversion → Run Inversion
store_inverted end v =
    store_cell v.cells v.inverted_match_count (record { start = v.inverted_match_start; end = end })
    >>= λ cells.
        done (record v { cells = cells; inverted_match_count = v.inverted_match_count + 1 })

-- "match_read_index++" and the next match, if there is one.
unfoldable pub read_next : ℕ → Inversion → Run Inversion
read_next matches_len v =
    let read = v.match_read_index + 1 in
    let one_more : Run Inversion = elim (get_elem? v.cells read) as (λ _. Run Inversion) [
      | some m ↦ done (record v { match_read_index = read; next_match = m })
      | none ↦ fault
    ] in
    if ltb read matches_len then one_more else done (record v { match_read_index = read })

-- The branch at the start of a match.
unfoldable pub at_match : ℕ → Inversion → Run Inversion
at_match matches_len v = read_next matches_len v >>= λ v'.
    let stored = store_inverted (v'.last_line_end - 1) v' >>= λ v''.
    done (record v'' { in_inverted_match = false }) in
    if v'.in_inverted_match && ltb v'.inverted_match_start v'.last_line_end
    then stored
    else done (record v' { in_inverted_match = false })

-- The branch at the end of a line.
unfoldable pub at_line_end : ℕ → Inversion → Inversion
at_line_end i v = record v {
  last_line_end = i + 1;
  inverted_match_start = if v.in_inverted_match then v.inverted_match_start else i + 1;
  in_inverted_match = true;
}

-- The loop. `i = next_match.end - 1` and the `i++` behind it make the end of the match, also where the
-- difference wraps.
unfoldable pub invert_loop : List ℕ → ℕ → ℕ → ℕ → Inversion → Run Inversion
invert_loop buf matches_len zero i v = looping
invert_loop buf matches_len (suc fuel) i v =
    let next = invert_loop buf matches_len fuel in
    let at_start : Run Inversion = at_match matches_len v >>= next v.next_match.end in
    let at_last : Run Inversion = store_inverted i v >>= next (i + 1) in
    let step : Run Inversion =
      if i == v.next_match.start
      then at_start
      else if i + 1 == length buf && v.in_inverted_match
      then at_last
      else if get_or buf i 0 == 10
      then next (i + 1) (at_line_end i v)
      else next (i + 1) v in
    if ltb i (length buf) then step else done v

-- The array with the number of its matches. "No matches, so the whole buffer is now a match."
unfoldable pub invert_matches : List ℕ → List Match → ℕ → Run (List Match × ℕ)
invert_matches buf cells zero =
    store_cell cells 0 (record { start = 0; end = sub_size (length buf) 1 }) >>= λ cells'.
    done (cells', 1)
invert_matches buf cells (suc n) = elim (get_elem? cells 0) as (λ _. Run (List Match × ℕ)) [
  | none ↦ fault
  | some m ↦
      invert_loop buf (suc n) (length buf + 1) 0 (record {
        cells = cells;
        next_match = m;
        match_read_index = 0;
        inverted_match_count = 0;
        inverted_match_start = 0;
        last_line_end = 0;
        in_inverted_match = true;
      })
      >>= λ v. done (v.cells, v.inverted_match_count)
]
