-- ===== src/Util/Hash/Words.antt =====
-- The two bytes of the text under a match are a word that `generate_hash` has stored.
use libag.Common.{
  ℕ, suc, ◌+◌, ◌%◌, ◌<◌, ◌≡◌, refl, sym, ap, ap₂, ◌∙◌, inl, inr, Bool, true, false, List, All,
  length, get_or, get_or-drop, drop, subst, arith,
}
use libag.Util.Literal.{Matches, fold, fold-true, fold-false, match_here-get_or}
use libag.Util.Hash.{Table, as_word, capitalize, caps_word, caps_sets}
use libag.Util.Hash.Stored.{Stored, Holds}

abbrev Values : ℕ → Type 0
Values f =
    (capitalize 0 0 f ≡ f)
    × (capitalize 0 1 f ≡ f)
    × (capitalize 1 0 f ≡ (f + 224) % 256)
    × (capitalize 1 1 f ≡ f)
    × (capitalize 2 0 f ≡ f)
    × (capitalize 2 1 f ≡ (f + 224) % 256)
    × (capitalize 3 0 f ≡ (f + 224) % 256)
    × (capitalize 3 1 f ≡ (f + 224) % 256)

capitalize-Values : (f : ℕ) → Values f
unfolding capitalize
capitalize-Values f = (refl, refl, refl, refl, refl, refl, refl, refl)

-- `*(const uint16_t *)(s + at)`
abbrev pub text_word : List ℕ → ℕ → ℕ
text_word s at = as_word (get_or s at 0) (get_or s (at + 1) 0)

module _ (find : List ℕ) (i : ℕ) (table : Table) where
  abbrev AllStored : Bool → Type 0
  AllStored cs = All (λ c. Stored table (caps_word find i c) (suc i)) (caps_sets cs)

  as_word-Stored :
      (c : ℕ) (x y : ℕ)
      → Stored table (caps_word find i c) (suc i)
      → x ≡ capitalize c 0 (get_or find i 0)
      → y ≡ capitalize c 1 (get_or find (i + 1) 0)
      → Stored table (as_word x y) (suc i)
  as_word-Stored c x y s p q =
      subst (λ (w : ℕ). Stored table w (suc i)) (ap₂ as_word (sym p) (sym q)) s

  folded-Stored :
      (cs : Bool) (x y : ℕ)
      → AllStored cs
      → fold cs x ≡ get_or find i 0
      → fold cs y ≡ get_or find (i + 1) 0
      → Stored table (as_word x y) (suc i)
  folded-Stored true x y all p q =
      as_word-Stored 0 x y all.0 (omega (arith, fold-true x, capitalize-Values (get_or find i 0)))
        (omega (arith, fold-true y, capitalize-Values (get_or find (i + 1) 0)))
  folded-Stored false x y all p q = elim (fold-false x (get_or find i 0) p) [
    | inl p' ↦ elim (fold-false y (get_or find (i + 1) 0) q) [
      | inl q' ↦ as_word-Stored 0 x y all.0 (p' ∙ sym v.0) (q' ∙ sym w.1)
      | inr q' ↦ as_word-Stored 2 x y all.1.1.0 (p' ∙ sym v.4) (q' ∙ sym w.5)
    ]
    | inr p' ↦ elim (fold-false y (get_or find (i + 1) 0) q) [
      | inl q' ↦ as_word-Stored 1 x y all.1.0 (p' ∙ sym v.2) (q' ∙ sym w.3)
      | inr q' ↦ as_word-Stored 3 x y all.1.1.1.0 (p' ∙ sym v.6) (q' ∙ sym w.7)
    ]
  ]
    where
      v : Values (get_or find i 0)
      v = capitalize-Values (get_or find i 0)

      w : Values (get_or find (i + 1) 0)
      w = capitalize-Values (get_or find (i + 1) 0)

-- A match at `r` has its word at `r + i` stored, for every place `i` of the query but the last.
pub Matches-Stored :
    (cs : Bool) (find s : List ℕ) (n : ℕ) (table : Table) (r i : ℕ)
    → Holds find cs n table
    → Matches cs find s r
    → i < n
    → suc i < length find
    → Stored table (text_word s (r + i)) (suc i)
Matches-Stored cs find s n table r i holds m lt inside =
    folded-Stored find i table cs (get_or s (r + i) 0) (get_or s (r + i + 1) 0) (holds i lt)
      (ap (fold cs) (sym (get_or-drop r i s 0))
        ∙ match_here-get_or cs find (drop r s) i m (omega arith))
      (ap (fold cs) next ∙ match_here-get_or cs find (drop r s) (i + 1) m (omega arith))
  where
    next : get_or s (r + i + 1) 0 ≡ get_or (drop r s) (i + 1) 0
    next =
        let e : r + i + 1 ≡ r + (i + 1) = omega arith in
        ap (λ k. get_or s k 0) e ∙ sym (get_or-drop r (i + 1) s 0)
