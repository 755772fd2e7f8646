-- ===== src/Util/Literal.antt =====
-- What the two literal matchers of ag_src/util.c share: the comparison of a query with the text at
-- a place, and the answer that both owe.
use libag.Common.{
  ℕ, ◌+◌, ◌≤◌, ◌<◌, ◌≡◌, refl, ap, Bool, true, false, Option, none, some, List, [], ◌∷◌, length,
  drop, ◌==◌, ltb, ◌&&◌, All, if◌then◌else◌, Bool-cases, zero, suc, get_or, ◌%◌, ◌⊎◌, inl, inr, Run,
  done, fault, arith,
}
use libag.Cstr.{tolower}

-- `case_sensitive ? c : tolower(c)`
unfoldable pub fold : Bool → ℕ → ℕ
fold case_sensitive c = if case_sensitive then c else tolower c

-- `(case_sensitive ? c : tolower(c)) == f` as two `int`s, of `char`s that are signed: the `tolower` of
-- the C library gives the negative values of `char` back as 128 to 254, which are no `char`, and -1,
-- which is EOF, as -1.
unfoldable pub same_char : Bool → ℕ → ℕ → Bool
same_char case_sensitive c f =
    if case_sensitive then c == f else if ltb c 128 then tolower c == f else c == 255 && f == 255

-- The loop of `hash_strnstr` over a cell, which compares them so.
unfoldable pub match_cell : Bool → List ℕ → List ℕ → Run Bool
match_cell cs [] text = done true
match_cell cs (f ∷ find) [] = fault
match_cell cs (f ∷ find) (c ∷ text) =
    if same_char cs c f then match_cell cs find text else done false

-- The loop of `hash_strnstr` over the tail, which cuts to a `char` before, that compares `find` with the text that starts at `R`.
unfoldable pub match_here : Bool → List ℕ → List ℕ → Run Bool
match_here cs [] text = done true
match_here cs (f ∷ find) [] = fault
match_here cs (f ∷ find) (c ∷ text) = if fold cs c == f then match_here cs find text else done false

abbrev pub Matches : Bool → List ℕ → List ℕ → ℕ → Type 0
Matches cs find s at = match_here cs find (drop at s) ≡ done true

-- The place of the first occurrence, or that there is none.
abbrev pub FirstAt : Bool → List ℕ → List ℕ → Option ℕ → Type 0
FirstAt cs find s (some at) =
    (at + length find ≤ length s)
    × Matches cs find s at
    × ((r : ℕ) → r < at → ¬ Matches cs find s r)
FirstAt cs find s none = (r : ℕ) → r + length find ≤ length s → ¬ Matches cs find s r

-- Where the text is long enough the comparison stays in it.
pub match_here-done :
    (cs : Bool) (find text : List ℕ)
    → length find ≤ length text
    → (b : Bool) × (match_here cs find text ≡ done b)
unfolding match_here
match_here-done cs [] text h = (true, refl)
match_here-done cs (f ∷ find) [] h = absurd (omega arith)
match_here-done cs (f ∷ find) (c ∷ text) h = elim (Bool-cases (fold cs c == f)) [
  | inl e ↦ rw e (match_here-done cs find text (omega arith))
  | inr ne ↦ rw ne (false, refl)
]

-- A match makes every byte of the query a folded byte of the text.
pub match_here-get_or :
    (cs : Bool) (find text : List ℕ) (i : ℕ)
    → match_here cs find text ≡ done true
    → i < length find
    → fold cs (get_or text i 0) ≡ get_or find i 0
unfolding match_here
match_here-get_or cs [] text i h lt = absurd (omega arith)
match_here-get_or cs (f ∷ find) [] i h lt = ground arith
match_here-get_or cs (f ∷ find) (c ∷ text) zero h lt = ground arith
match_here-get_or cs (f ∷ find) (c ∷ text) (suc i) h lt =
    match_here-get_or cs find text i (ground arith) (omega arith)

pub fold-true : (c : ℕ) → fold true c ≡ c
unfolding fold
fold-true c = refl

-- The bytes that fold to a byte: itself, and the capital letter for it.
pub fold-false : (c f : ℕ) → fold false c ≡ f → (c ≡ f) ⊎ (c ≡ (f + 224) % 256)
unfolding fold tolower
fold-false c f h = ground arith

-- The query is compared exactly, or has no byte with the sign of a `char`.
abbrev pub IsComparable : Bool → List ℕ → Type 0
IsComparable cs find = (cs ≡ true) ⊎ All (λ f. f < 128) find

pub same_char-fold : (cs : Bool) (c f : ℕ) → same_char cs c f ≡ true → fold cs c ≡ f
unfolding same_char fold tolower
same_char-fold true c f h = ground (arith, h)
same_char-fold false c f h = ground (arith, h)

same_char-small : (c f : ℕ) → f < 128 → same_char false c f ≡ (fold false c == f)
unfolding same_char fold tolower
same_char-small c f small = ground (arith, small)

match_cell-exact : (find text : List ℕ) → match_cell true find text ≡ match_here true find text
unfolding match_cell match_here same_char fold
match_cell-exact [] text = refl
match_cell-exact (f ∷ find) [] = refl
match_cell-exact (f ∷ find) (c ∷ text) =
    ap (λ r. if c == f then r else done false) (match_cell-exact find text)

match_cell-small :
    (find text : List ℕ)
    → All (λ f. f < 128) find
    → match_cell false find text ≡ match_here false find text
unfolding match_cell match_here
match_cell-small [] text h = refl
match_cell-small (f ∷ find) [] h = refl
match_cell-small (f ∷ find) (c ∷ text) h =
    rw (same_char-small c f h.0, match_cell-small find text h.1) refl

-- For such a query the two loops do the same.
pub match_cell-match_here :
    (cs : Bool) (find text : List ℕ)
    → IsComparable cs find
    → match_cell cs find text ≡ match_here cs find text
match_cell-match_here true find text h = match_cell-exact find text
match_cell-match_here false find text (inl e) = absurd (ground (arith, e))
match_cell-match_here false find text (inr small) = match_cell-small find text small
