-- ===== src/Search/Invert/Stuck.antt =====
-- Where the loop of `invert_matches` never ends.
use libag.Common.{
  ℕ, zero, suc, ◌+◌, ◌≤◌, ◌<◌, ◌≡◌, refl, sym, subst, false, List, length, done, looping, arith,
}
use libag.Search.Invert.{Inversion, read_next, at_match, invert_loop}

-- The state after a round at the start of a match, when no match is left to read.
abbrev stepped : Inversion → Inversion
stepped v = record v { match_read_index = v.match_read_index + 1; in_inverted_match = false }

at_match-stepped :
    (matches_len : ℕ) (v : Inversion)
    → matches_len ≤ v.match_read_index + 1
    → v.in_inverted_match ≡ false
    → at_match matches_len v ≡ done (stepped v)
unfolding at_match read_next
at_match-stepped matches_len v last outside = ground arith

-- At a match of length zero inside of the buffer that is the last one, outside of an inverted match,
-- no number of rounds is enough: the position is set back to the start of the match every time.
pub invert_loop-looping :
    (buf : List ℕ) (matches_len fuel i : ℕ) (v : Inversion)
    → i < length buf
    → v.next_match.start ≡ i
    → v.next_match.end ≡ i
    → matches_len ≤ v.match_read_index + 1
    → v.in_inverted_match ≡ false
    → invert_loop buf matches_len fuel i v ≡ looping
unfolding invert_loop
invert_loop-looping buf matches_len zero i v inside start end last outside = refl
invert_loop-looping buf matches_len (suc fuel) i v inside start end last outside = ground (
  arith,
  at_match-stepped matches_len v last outside,
  subst (λ k. invert_loop buf matches_len fuel k (stepped v) ≡ looping) (sym end)
      (invert_loop-looping buf matches_len fuel i (stepped v) inside start end (omega arith) refl),
)
