-- ===== src/Util/Hash/Probe.antt =====
-- The walk over the cells of a word in `hash_strnstr` finds the first match of its window.
use libag.Common.{
  ℕ, zero, suc, ◌+◌, ◌-◌, ◌%◌, ◌≤◌, ◌<◌, ◌≡◌, ◌≢◌, ap, ◌∙◌, inl, inr, Bool, Option, none, some,
  List, length, drop, ==_of_ne, ltb_of_le, ℕ_discrete, dec_lt, Bool-cases, subst, done, Returns,
  arith, length-drop,
}
use libag.Util.Literal.{Matches, match_here-done, match_cell-match_here, IsComparable}
use libag.Util.Hash.{Table, h_size, probe}
use libag.Util.Hash.Table.{cell, cell-suc, count_used, free_distance}
use libag.Util.Hash.Stored.{Stored, Between, Holds}
use libag.Util.Hash.Words.{text_word, Matches-Stored}

-- A table that serves a query: its words are stored, its values are places of the query, and it has
-- a free cell.
pub record Serves (find : List ℕ) (cs : Bool) (table : Table) : Type 0 where
  pub holds : Holds find cs (length find - 1) table
  pub between : Between table 0 (length find - 1)
  pub room : count_used table h_size < h_size

module _ (s find : List ℕ) (table : Table) (cs : Bool) where
  -- What the cells of the word at `s_i` owe: the first match that covers `s_i` with two bytes.
  abbrev pub FirstInWindow : ℕ → Option ℕ → Type 0
  FirstInWindow s_i (some at) =
      (at + length find ≤ length s)
      × Matches cs find s at
      × ((r : ℕ) → s_i + 2 ≤ r + length find → r < at → ¬ Matches cs find s r)
  FirstInWindow s_i none = (r : ℕ) → r ≤ s_i → s_i + 2 ≤ r + length find → ¬ Matches cs find s r

  module _ (serves : Serves find cs table) (plain : IsComparable cs find) (s_i : ℕ)
      (low : length find ≤ s_i + 2) (high : s_i + length find ≤ length s)
      (two : 2 ≤ length find) where
    word : ℕ
    word = text_word s s_i

    place : ℕ → ℕ
    place k = s_i + 1 - table (cell word k)

    abbrev Visited : ℕ → Type 0
    Visited k = (j : ℕ) → j < k → (table (cell word j) ≢ 0) × (¬ Matches cs find s (place j))

    -- After `k` cells with no match the value of every match is still ahead.
    ahead :
        (k r : ℕ)
        → Visited k
        → r ≤ s_i
        → s_i + 2 ≤ r + length find
        → Matches cs find s r
        → s_i + 1 ≤ r + table (cell word k)
    unfolding word place
    ahead k r visited le near m = elim (dec_lt j k) [
      | yes before ↦ absurd ((visited j before).1 (subst (Matches cs find s) (omega (arith, at)) m))
      | no after ↦ elim (ℕ_discrete j k) [
        | yes e ↦ omega (arith, at, ap (λ n. table (cell (text_word s s_i) n)) e)
        | no ne ↦ omega (arith, stored.2 k (omega arith))
      ]
    ]
      where
        stored : Stored table (text_word s s_i) (suc (s_i - r))
        stored =
            let e : r + (s_i - r) ≡ s_i = omega arith in
            subst (λ n. Stored table (text_word s n) (suc (s_i - r))) e
              (Matches-Stored cs find s (length find - 1) table r (s_i - r) serves.holds m
                (omega arith) (omega arith))

        j : ℕ
        j = stored.0

        at : table (cell (text_word s s_i) j) ≡ suc (s_i - r)
        at = stored.1

    Visited-suc :
        (k : ℕ)
        → Visited k
        → table (cell word k) ≢ 0
        → ¬ Matches cs find s (place k)
        → Visited (suc k)
    Visited-suc k visited used differs j lt = elim (dec_lt j k) [
      | yes before ↦ visited j before
      | no at ↦ let e : j ≡ k = omega arith in rw e (used, differs)
    ]

    -- The cell in use at step `k`: its place lies in the text.
    inside : (k : ℕ) → table (cell word k) ≢ 0 → place k + length find ≤ length s
    unfolding place
    inside k used = omega arith

    -- A match at the place of step `k` is the first of the window.
    found_first :
        (k : ℕ)
        → Visited k
        → table (cell word k) ≢ 0
        → Matches cs find s (place k)
        → FirstInWindow s_i (some (place k))
    found_first k visited used m = (
      inside k used,
      m,
      λ r near before found.
          unfold place in omega (arith, ahead k r visited (omega arith) near found),
    )

    probe-FirstInWindow :
        (fuel k z : ℕ)
        → table (cell word z) ≡ 0
        → z < k + fuel
        → Visited k
        → Returns (FirstInWindow s_i) (probe s find table cs fuel s_i (cell word k))
    unfolding probe place
    probe-FirstInWindow zero k z free lt visited = absurd ((visited z (omega arith)).0 free)
    probe-FirstInWindow (suc fuel) k z free lt visited = elim (ℕ_discrete (table (cell word k)) 0) [
      | yes e ↦ rw e (λ r le near m. omega (arith, ahead k r visited le near m))
      | no used ↦
          let (b, compared) =
            match_here-done cs find (drop (place k) s)
              (omega (arith, inside k used, length-drop {0} (place k) s)) in
          rw (==_of_ne (table (cell word k)) 0 used) (
            rw
              (ltb_of_le (s_i + 1) (table (cell word k))
                (omega (arith, serves.between (cell word k) used)))
              (rw (match_cell-match_here cs find (drop (place k) s) plain, compared)
                (elim (Bool-cases b) [
                  | inl hit ↦ rw hit (found_first k visited used (compared ∙ ap done hit))
                  | inr miss ↦
                      rw (miss, cell-suc word k)
                        (probe-FirstInWindow fuel (suc k) z free (omega arith)
                          (Visited-suc k visited used (λ m. ground (arith, compared, miss, m))))
                ])))
    ]

    -- With as many rounds as the table has cells the walk ends.
    pub probe_window :
        (fuel : ℕ)
        → h_size ≤ fuel
        → Returns (FirstInWindow s_i) (probe s find table cs fuel s_i (text_word s s_i % h_size))
    unfolding word
    probe_window fuel enough =
        let (z, lt, free) = free_distance table (text_word s s_i) serves.room in
        let start : cell (text_word s s_i) 0 ≡ text_word s s_i % h_size = omega arith in
        subst (λ (h : ℕ). Returns (FirstInWindow s_i) (probe s find table cs fuel s_i h)) start
          (probe-FirstInWindow fuel 0 z free (omega arith) (λ j none. absurd (omega arith)))
