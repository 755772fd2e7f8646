-- ===== src/Search/Literal.antt =====
-- The literal part of `search_buf` of ag_src/search.c, on a little-endian machine that allows
-- unaligned access.
pub mod Scan
use libag.Common.{
  ℕ, zero, suc, ◌+◌, ◌-◌, Bool, true, false, not, ◌&&◌, ◌||◌, Option, none, some, List, [], ◌∷◌,
  length, get_or, drop, ltb, leb, ◌==◌, if◌then◌else◌, Run, done, fault, looping, ◌>>=◌,
}
use libag.Util.Chars.{is_wordchar}
use libag.Util.Hash.{Table, hash_strnstr}
use libag.Util.BoyerMoore.{boyer_moore_strnstr}
use libag.Libag.Results.{Match}
use libag.Search.Matches.{Matches, add_match}

-- The tables that `setup_search` fills.
pub record Tables : Type 0 where
  pub h_table : Table
  pub alpha_skip : ℕ → ℕ
  pub find_skip : List ℕ

-- The options that the loop reads. `word_regexp` has `literal_starts_wordchar` and
-- `literal_ends_wordchar`, if it is set.
pub record LiteralOptions : Type 0 where
  pub case_sensitive : Bool
  pub word_regexp : Option (Bool × Bool)
  pub max_matches_per_file : ℕ
  pub matches_spare : ℕ

module _ (opts : LiteralOptions) (query : List ℕ) (tables : Tables) (buf : List ℕ) where
  -- "Decide whether to fall back on boyer-moore"
  unfoldable pub strnstr_at : ℕ → Run (Option ℕ)
  strnstr_at offset =
      if ltb (length query) 3 || leb 255 (length query)
      then boyer_moore_strnstr (drop offset buf) query opts.case_sensitive tables.alpha_skip
          tables.find_skip
      else hash_strnstr (drop offset buf) query tables.h_table opts.case_sensitive

  -- "Check whether both start and end of the match lie on a word boundary"
  unfoldable pub on_words : Option (Bool × Bool) → ℕ → Bool
  on_words none start = true
  on_words (some (starts, ends)) start =
      (start == 0 || differ (is_wordchar (get_or buf (start - 1) 0)) starts)
      && (start + length query == length buf
          || differ (is_wordchar (get_or buf (start + length query) 0)) ends)
    where
      differ : Bool → Bool → Bool
      differ true b = not b
      differ false b = b

  -- "It's a match": it is stored, and the search goes on behind it, up to the limit.
  unfoldable pub take_match : (ℕ → Matches → Run Matches) → ℕ → Matches → Run Matches
  take_match next start a =
      add_match a opts.matches_spare (record { start = start; end = start + length query })
      >>= λ a'.
          if ltb 0 opts.max_matches_per_file && leb opts.max_matches_per_file (length a'.matches)
          then done a'
          else next (start + length query) a'

  -- One round of the loop, at `buf_offset`, which is also where `match_ptr` points; `next` is the loop
  -- from another offset on.
  unfoldable pub literal_round : (ℕ → Matches → Run Matches) → ℕ → Matches → Run Matches
  literal_round next buf_offset a =
      let look : Run Matches = strnstr_at buf_offset >>= λ found. elim found as (λ _. Run Matches) [
        | none ↦ done a
        | some at ↦
            if on_words opts.word_regexp (buf_offset + at)
            then take_match next (buf_offset + at) a
            else next (buf_offset + at + get_or tables.find_skip 0 0 - length query + 1) a
      ] in
      if ltb buf_offset (length buf) then look else done a

  unfoldable pub literal_loop : ℕ → ℕ → Matches → Run Matches
  literal_loop zero buf_offset a = looping
  literal_loop (suc fuel) buf_offset a = literal_round (literal_loop fuel) buf_offset a

  unfoldable pub search_literal : Matches → Run Matches
  search_literal a = literal_loop (length buf + 1) 0 a
