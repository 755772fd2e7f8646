-- ===== src/Util/BoyerMoore/Sound.antt =====
-- Boyer-Moore search returns, stays in the text, and finds only occurrences.
use libag.Common.{
  ℕ, zero, suc, ◌+◌, ◌-◌, ◌≤◌, ◌<◌, ◌≡◌, refl, sym, ap, ◌∙◌, inl, inr, Bool, true, Option, none,
  some, List, [], ◌∷◌, length, length-drop, get_or, get_or-drop, drop, max, ltb, ==_of_ne,
  Bool-cases, Run, done, fault, Returns, ℕ_discrete, arith,
}
use libag.Util.Literal.{fold, same_char, same_char-fold, match_here, Matches}
use libag.Util.BoyerMoore.{
  Back, found_at, differs, before, compare_back, moore_rounds, boyer_moore_strnstr,
  generate_find_skip,
}
use libag.Util.BoyerMoore.Skips.{Ahead, generate_find_skip-Ahead}

-- An occurrence, if there is an answer.
abbrev pub Occurs : Bool → List ℕ → List ℕ → Option ℕ → Type 0
Occurs cs find s (some at) = (at + length find ≤ length s) × Matches cs find s at
Occurs cs find s none = Unit

match_here_of_bytes :
    (cs : Bool) (find text : List ℕ)
    → length find ≤ length text
    → ((j : ℕ) → j < length find → fold cs (get_or text j 0) ≡ get_or find j 0)
    → match_here cs find text ≡ done true
unfolding match_here
match_here_of_bytes cs [] text le same = refl
match_here_of_bytes cs (f ∷ find) [] le same = absurd (omega arith)
match_here_of_bytes cs (f ∷ find) (c ∷ text) le same = ground (
  arith,
  same 0 (omega arith),
  match_here_of_bytes cs find text (omega arith) (λ j lt. same (suc j) (omega arith)),
)

module _ (s find : List ℕ) (cs : Bool) where
  -- The end of the inner loop that starts with `k` bytes of the pattern to compare, in front of `pos`.
  abbrev Ends : ℕ → ℕ → Back → Type 0
  Ends k pos (found_at at) =
      (at + k ≡ pos) × ((j : ℕ) → j < k → fold cs (get_or s (at + j) 0) ≡ get_or find j 0)
  Ends k pos (differs i p) = (i < k) × (p + k ≡ pos + i)
  Ends k pos before = ⊥

  compare_back-Ends : (k pos : ℕ) → k ≤ pos → Ends k pos (compare_back s find cs k pos)
  unfolding compare_back
  compare_back-Ends zero pos le = (omega arith, λ j lt. absurd (omega arith))
  compare_back-Ends (suc i) zero le = absurd (omega arith)
  compare_back-Ends (suc i) (suc pos) le =
      elim (Bool-cases (same_char cs (get_or s pos 0) (get_or find i 0))) [
        | inr differ ↦ rw differ (omega arith, omega arith)
        | inl same ↦ rw same (
            longer (same_char-fold cs (get_or s pos 0) (get_or find i 0) same)
              (compare_back s find cs i pos) (compare_back-Ends i pos (omega arith)))
      ]
    where
      longer :
          fold cs (get_or s pos 0) ≡ get_or find i 0
          → (b : Back) → Ends i pos b
          → Ends (suc i) (suc pos) b
      longer same (found_at at) (e, bytes) = (
        omega arith,
        λ j lt. elim (ℕ_discrete j i) [
          | yes last ↦
              ap (λ k. fold cs (get_or s k 0)) {x = at + j} (omega arith)
              ∙ same
              ∙ ap (λ k. get_or find k 0) (sym last)
          | no earlier ↦ bytes j (omega arith)
        ],
      )
      longer same (differs j p) (lt, e) = (omega arith, omega arith)
      longer same before h = h

  -- The mismatch moves the window ahead of where it was.
  moore_rounds-Occurs :
      (alpha : ℕ → ℕ) (skip : List ℕ) (fuel pos : ℕ)
      → Ahead find cs skip
      → length find ≤ pos + 1
      → 0 < fuel
      → length s < fuel + pos
      → Returns (Occurs cs find s) (moore_rounds s find cs alpha skip fuel pos)
  unfolding moore_rounds
  moore_rounds-Occurs alpha skip zero pos a le some_fuel enough = absurd (omega arith)
  moore_rounds-Occurs alpha skip (suc fuel) pos a le some_fuel enough =
      elim (Bool-cases (ltb pos (length s))) [
        | inr ended ↦ rw ended tt
        | inl inside ↦ rw inside (
            by_end (ground arith)
              (λ p from.
                moore_rounds-Occurs alpha skip fuel p a (omega arith) (ground arith) (omega arith))
              (compare_back s find cs (length find) (pos + 1))
              (compare_back-Ends (length find) (pos + 1) le))
      ]
    where
      by_end :
          pos < length s
          → ((p : ℕ)
              → pos < p
              → Returns (Occurs cs find s) (moore_rounds s find cs alpha skip fuel p))
          → (b : Back) → Ends (length find) (pos + 1) b
          → Returns (Occurs cs find s) (elim b as (λ _. Run (Option ℕ)) [
            | found_at at ↦ done (some at)
            | before ↦ fault
            | differs i p ↦
                moore_rounds s find cs alpha skip fuel
                  (p + max (alpha (get_or s p 0)) (get_or skip i 0))
          ])
      by_end lt next (found_at at) (e, bytes) = (
        omega arith,
        match_here_of_bytes cs find (drop at s) (omega (arith, length-drop {0} at s))
            (λ j less. ap (fold cs) (get_or-drop at j s 0) ∙ bytes j less),
      )
      by_end lt next (differs i p) (less, e) =
          next (p + max (alpha (get_or s p 0)) (get_or skip i 0)) (omega (arith, a.ahead i less))
      by_end lt next before h = h

  -- With its own second table, and whatever the first one holds, the search for a query that is not
  -- empty returns and reads nothing outside the text, and a place that it finds is an occurrence.
  pub boyer_moore_strnstr-Occurs :
      (alpha : ℕ → ℕ)
      → 1 ≤ length find
      → Returns
          (Occurs cs find s)
          (boyer_moore_strnstr s find cs alpha (generate_find_skip find cs))
  unfolding boyer_moore_strnstr
  boyer_moore_strnstr-Occurs alpha some_find = rw (==_of_ne (length find) 0 (λ e. omega arith)) (
      moore_rounds-Occurs alpha (generate_find_skip find cs) (length s + 1) (length find - 1)
        (generate_find_skip-Ahead find cs some_find) (omega arith) (omega arith) (omega arith))
