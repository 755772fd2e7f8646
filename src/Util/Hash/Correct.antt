-- ===== src/Util/Hash/Correct.antt =====
-- `hash_strnstr` with the table of `generate_hash` returns the first occurrence of the query.
use native.Mathlib.Nat.{le_refl}
use libag.Common.{
  ℕ, zero, suc, ◌+◌, ◌-◌, ◌≤◌, ◌<◌, ◌≡◌, refl, ap, ◌∙◌, inl, inr, Bool, none, some, List, length,
  length-drop, drop, Bool-cases, ltb_of_lt, ltb_of_le, leb_of_lt, leb_of_le, dec_lt, subst, done,
  ◌>>=◌, Returns, Returns->>=, Returns-map, arith,
}
use libag.Util.Literal.{Matches, FirstAt, match_here-done, IsComparable}
use libag.Util.Hash.{
  Table, h_size, empty_table, generate_hash, check_tail, step_through, hash_strnstr,
}
use libag.Util.Hash.Table.{count_used-empty_table}
use libag.Util.Hash.Stored.{Built, hash_from-Built}
use libag.Util.Hash.Probe.{Serves, FirstInWindow, probe_window}

module _ (s find : List ℕ) (table : Table) (cs : Bool) (fits : length find ≤ length s) where
  -- Nothing matches before a place.
  abbrev NoneBefore : ℕ → Type 0
  NoneBefore n = (r : ℕ) → r < n → ¬ Matches cs find s r

  NoneBefore-suc : (n : ℕ) → NoneBefore n → ¬ Matches cs find s n → NoneBefore (n + 1)
  NoneBefore-suc n before here r lt m = elim (dec_lt r n) [
    | yes p ↦ before r p m
    | no p ↦ let e : r ≡ n = omega arith in here (subst (Matches cs find s) e m)
  ]

  check_tail-FirstAt :
      (fuel s_i : ℕ)
      → length s - length find + 1 - s_i < fuel
      → NoneBefore s_i
      → Returns (FirstAt cs find s) (check_tail s find table cs fuel s_i)
  unfolding check_tail
  check_tail-FirstAt zero s_i enough before = absurd (omega arith)
  check_tail-FirstAt (suc fuel) s_i enough before = elim (dec_lt (length s - length find) s_i) [
    | yes past ↦ rw (leb_of_lt s_i (length s - length find) past) (λ r le. before r (omega arith))
    | no within ↦
        let (b, compared) =
          match_here-done cs find (drop s_i s) (omega (arith, length-drop {0} s_i s)) in
        rw (leb_of_le s_i (length s - length find) (omega arith), compared)
          (elim (Bool-cases b) [
            | inl hit ↦ rw hit (omega arith, compared ∙ ap done hit, before)
            | inr miss ↦ rw miss (
                check_tail-FirstAt fuel (s_i + 1) (omega arith)
                  (NoneBefore-suc s_i before (λ m. ground (arith, compared, miss, m))))
          ])
  ]

  module _ (serves : Serves find cs table) (plain : IsComparable cs find)
      (two : 2 ≤ length find) where
    -- A window after windows without a match.
    window_found :
        (s_i at : ℕ)
        → NoneBefore (s_i + 2 - length find)
        → FirstInWindow s find table cs s_i (some at)
        → FirstAt cs find s (some at)
    window_found s_i at before (fits', m, first) = (
      fits',
      m,
      λ r lt. elim (dec_lt r (s_i + 2 - length find)) [
        | yes p ↦ before r p
        | no p ↦ first r (omega arith) lt
      ],
    )

    window_missed :
        (s_i : ℕ)
        → NoneBefore (s_i + 2 - length find)
        → FirstInWindow s find table cs s_i none
        → NoneBefore (s_i + (length find - 1) + 2 - length find)
    window_missed s_i before missed r lt = elim (dec_lt r (s_i + 2 - length find)) [
      | yes p ↦ before r p
      | no p ↦ missed r (omega arith) (omega arith)
    ]

    step_through-FirstAt :
        (fuel s_i : ℕ)
        → length s - length find + 1 - s_i < fuel
        → length find ≤ s_i + 2
        → NoneBefore (s_i + 2 - length find)
        → Returns (FirstAt cs find s) (step_through s find table cs fuel s_i)
    unfolding step_through
    step_through-FirstAt zero s_i enough low before = absurd (omega arith)
    step_through-FirstAt (suc fuel) s_i enough low before =
        elim (dec_lt (length s - length find) s_i) [
          | yes past ↦
              let e : s_i + 1 - (length find - 1) ≡ s_i + 2 - length find = omega arith in
              rw (leb_of_lt s_i (length s - length find) past, e)
                (check_tail-FirstAt (length s + 1) (s_i + 2 - length find) (omega arith) before)
          | no within ↦ rw (leb_of_le s_i (length s - length find) (omega arith)) (
              Returns->>= (FirstInWindow s find table cs s_i) (FirstAt cs find s) _ _
                (probe_window s find table cs serves plain s_i low (omega arith) two h_size
                  (le_refl h_size))
                (elim [
                  | some at ↦ λ w. window_found s_i at before w
                  | none ↦ λ w.
                      step_through-FirstAt fuel (s_i + (length find - 1)) (omega arith)
                        (omega arith) (window_missed s_i before w)
                ]))
        ]

-- With a table that serves the query the search returns the first occurrence, or that there is none.
pub hash_strnstr-FirstAt :
    (s find : List ℕ) (table : Table) (cs : Bool)
    → Serves find cs table
    → IsComparable cs find
    → 2 ≤ length find
    → Returns (FirstAt cs find s) (hash_strnstr s find table cs)
unfolding hash_strnstr
hash_strnstr-FirstAt s find table cs serves plain two = elim (dec_lt (length s) (length find)) [
  | yes short ↦ rw (ltb_of_lt (length s) (length find) short) (λ r le. absurd (omega arith))
  | no fits ↦ rw (ltb_of_le (length s) (length find) (omega arith)) (
      step_through-FirstAt s find table cs (omega arith) serves plain two (length s + 1)
        (length find - 2) (omega arith) (omega arith) (λ r lt. absurd (omega arith)))
]

-- On an empty table, for a query of 2 to 255 bytes, `generate_hash` returns a table that serves it.
pub generate_hash-Serves :
    (find : List ℕ) (cs : Bool)
    → 2 ≤ length find
    → length find < 256
    → Returns (Serves find cs) (generate_hash find empty_table cs)
unfolding generate_hash
generate_hash-Serves find cs two small =
    Returns-map (Built h_size (le_refl h_size) find cs top (omega arith) top empty_table)
      (Serves find cs) _
      (λ table b. record {
        holds = b.0;
        between = b.2;
        room = omega (arith, count_used-empty_table h_size);
      })
      (hash_from-Built h_size (le_refl h_size) find cs top (omega arith) top empty_table
        (le_refl top) (λ h used. absurd (used refl)) (omega (arith, count_used-empty_table h_size)))
  where
    top : ℕ
    top = length find - 1

-- The literal search for a query of 2 to 255 bytes, table and all, searched with the
-- case or of ASCII bytes: it
-- returns, it reads nothing outside the text, and its answer is the first occurrence in the text, or that there is none.
pub literal_search-FirstAt :
    (s find : List ℕ) (cs : Bool)
    → IsComparable cs find
    → 2 ≤ length find
    → length find < 256
    → Returns
        (FirstAt cs find s)
        (generate_hash find empty_table cs >>= λ table. hash_strnstr s find table cs)
literal_search-FirstAt s find cs plain two small =
    Returns->>= (Serves find cs) (FirstAt cs find s) (generate_hash find empty_table cs) _
      (generate_hash-Serves find cs two small)
      (λ table serves. hash_strnstr-FirstAt s find table cs serves plain two)
