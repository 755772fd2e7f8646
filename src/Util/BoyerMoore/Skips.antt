-- ===== src/Util/BoyerMoore/Skips.antt =====
-- The second table of Boyer-Moore moves every window ahead.
use libag.Common.{
  ℕ, zero, suc, ◌+◌, ◌-◌, ◌≤◌, ◌<◌, ◌≡◌, refl, sym, ap, ◌∙◌, subst, Bool, true, false, List, length,
  length-set, length-replicate, replicate, get_or, set, get_or-set_self, get_or-set_ne, ◌==◌,
  if◌then◌else◌, ℕ_discrete, arith,
}
use libag.Util.BoyerMoore.{
  is_prefix, suffix_rounds, suffix_len, prefix_rounds, suffix_round, find_rounds,
  generate_find_skip,
}

module _ (find : List ℕ) (cs : Bool) where
  -- A mismatch at `i` moves the window by at least one byte.
  pub record Ahead (sl : List ℕ) : Type 0 where
    pub cells : length sl ≡ length find
    pub ahead : (i : ℕ) → i < length find → length find ≤ get_or sl i 0 + i

  suffix_rounds-le : (pos r i : ℕ) → suffix_rounds find pos cs r i ≤ r + i
  unfolding suffix_rounds
  suffix_rounds-le pos zero i = omega arith
  suffix_rounds-le pos (suc r) i = ground (arith, suffix_rounds-le pos r (i + 1))

  set-Ahead :
      (sl : List ℕ) (at v : ℕ)
      → Ahead sl
      → (at < length find → length find ≤ v + at)
      → Ahead (set sl at v)
  set-Ahead sl at v a h = record {
    cells = length-set sl at v ∙ a.cells;
    ahead = λ i lt. elim (ℕ_discrete i at) [
      | yes e ↦
          subst (λ k. length find ≤ get_or (set sl at v) k 0 + k) (sym e)
            (rw (get_or-set_self sl at v 0 (omega (arith, a.cells))) (h (omega arith)))
      | no ne ↦ rw (get_or-set_ne sl at i v 0 (λ f. ne (sym f))) (a.ahead i lt)
    ];
  }

  -- The first loop from `i` down, when the cells from `i` on are filled.
  prefix_rounds-Ahead :
      (i last : ℕ) (sl : List ℕ)
      → 1 ≤ last
      → i ≤ length find
      → length sl ≡ length find
      → ((j : ℕ) → i ≤ j → j < length find → length find ≤ get_or sl j 0 + j)
      → Ahead (prefix_rounds find cs i last sl)
  unfolding prefix_rounds
  prefix_rounds-Ahead zero last sl some_last le cells filled = record {
    cells = cells;
    ahead = λ i lt. filled i (omega arith) lt;
  }
  prefix_rounds-Ahead (suc i) last sl some_last le cells filled =
      prefix_rounds-Ahead i (last_of (is_prefix find (suc i) cs))
        (set sl i (last_of (is_prefix find (suc i) cs) + (length find - suc i)))
        (some_of (is_prefix find (suc i) cs)) (omega arith)
        (length-set sl i (last_of (is_prefix find (suc i) cs) + (length find - suc i)) ∙ cells)
        (λ j from to. elim (ℕ_discrete j i) [
          | yes e ↦
              subst
                (λ k.
                  length find
                  ≤ get_or (set sl i (last_of (is_prefix find (suc i) cs) + (length find - suc i)))
                      k 0
                    + k)
                (sym e)
                (rw
                  (get_or-set_self sl i
                    (last_of (is_prefix find (suc i) cs) + (length find - suc i)) 0 (omega arith))
                  (omega (arith, some_of (is_prefix find (suc i) cs))))
          | no ne ↦
              rw
                (get_or-set_ne sl i j (last_of (is_prefix find (suc i) cs) + (length find - suc i))
                  0 (λ f. ne (sym f)))
                (filled j (omega arith) to)
        ])
    where
      last_of : Bool → ℕ
      last_of b = if b then suc i else last

      some_of : (b : Bool) → 1 ≤ last_of b
      some_of true = omega arith
      some_of false = some_last

  -- A round of the second loop.
  suffix_round-Ahead :
      (i : ℕ) (sl : List ℕ) → i < length find → Ahead sl → Ahead (suffix_round find cs i sl)
  unfolding suffix_round suffix_len
  suffix_round-Ahead i sl lt a =
      by_test
        (get_or find (i - suffix_rounds find i cs i 0) 0
          == get_or find (length find - 1 - suffix_rounds find i cs i 0) 0)
        refl
    where
      s_len : ℕ
      s_len = suffix_rounds find i cs i 0

      same_byte_there :
          i ≡ length find - 1
          → (get_or find (i - s_len) 0 == get_or find (length find - 1 - s_len) 0) ≡ false
          → ⊥
      same_byte_there last h = ground (arith, ap (λ k. get_or find (k - s_len) 0) last)

      short : s_len ≤ i
      short = omega (arith, suffix_rounds-le i i 0)

      by_test :
          (b : Bool)
          → (get_or find (i - s_len) 0 == get_or find (length find - 1 - s_len) 0) ≡ b
          → Ahead (if b then sl else set sl (length find - 1 - s_len) (length find - 1 - i + s_len))
      by_test true e = a
      by_test false e = set-Ahead sl (length find - 1 - s_len) (length find - 1 - i + s_len) a (λ _.
          elim (ℕ_discrete i (length find - 1)) [
            | yes last ↦ absurd (same_byte_there last e)
            | no earlier ↦ omega (arith, short)
          ])

  find_rounds-Ahead :
      (n : ℕ) (sl : List ℕ) → n ≤ length find → Ahead sl → Ahead (find_rounds find cs n sl)
  unfolding find_rounds
  find_rounds-Ahead zero sl le a = a
  find_rounds-Ahead (suc n) sl le a =
      suffix_round-Ahead n (find_rounds find cs n sl) (omega arith)
        (find_rounds-Ahead n sl (omega arith) a)

  pub generate_find_skip-Ahead : 1 ≤ length find → Ahead (generate_find_skip find cs)
  unfolding generate_find_skip
  generate_find_skip-Ahead some_find = find_rounds-Ahead (length find) _ (omega arith) (
      prefix_rounds-Ahead (length find) (length find) (replicate (length find) 0) some_find
        (omega arith) (length-replicate {A = ℕ} (length find) 0)
        (λ j from to. absurd (omega arith)))
