-- ===== src/Util/Binary/Verdicts.antt =====
-- What `is_binary` answers for text, and for data with a NUL.
use native.Mathlib.Nat.{le_refl, zero-div, div-le_of_le-mul}
use libag.Common.{
  ℕ, zero, suc, ◌+◌, ◌-◌, ◌*◌, ◌/◌, sym, ◌≤◌, ◌<◌, ◌≡◌, ◌≢◌, refl, true, false, List, ◌∷◌, length,
  get_or, ◌==◌, min, arith, ltb_of_lt, ltb_of_le, ==_of_ne, ap, ◌∙◌, dec_lt, ℕ_discrete,
}
use libag.Cstr.{has_prefix}
use libag.Util.Binary.{
  too_many, is_continuation, pdf_mark, is_odd_byte, utf8_step, scan_bytes, is_binary,
}

-- A byte of plain text: 7 to 14, or 32 to 127.
abbrev pub IsTextByte : ℕ → Type 0
IsTextByte c = is_odd_byte c ≡ false

abbrev pub IsText : List ℕ → ℕ → ℕ → Type 0
IsText buf from to =
    (j : ℕ) → from ≤ j → j < to → (get_or buf j 0 ≢ 0) × IsTextByte (get_or buf j 0)

-- Over text the loop counts nothing.
scan_bytes_text :
    (fuel : ℕ) (buf : List ℕ) (total i suspicious : ℕ)
    → IsText buf i total
    → too_many suspicious total ≡ false
    → scan_bytes fuel buf total i suspicious ≡ false
unfolding scan_bytes
scan_bytes_text zero buf total i suspicious text few = few
scan_bytes_text (suc fuel) buf total i suspicious text few = elim (dec_lt i total) [
  | yes lt ↦ rw (ltb_of_lt i total lt) (
      rw (==_of_ne (get_or buf i 0) 0 (text i (le_refl i) lt).0) (
        rw (text i (le_refl i) lt).1
          (scan_bytes_text fuel buf total (i + 1) suspicious (λ j le. text j (omega arith)) few)))
  | no ge ↦ rw (ltb_of_le i total (omega arith)) few
]

-- A NUL behind text ends the loop.
scan_bytes_nul :
    (fuel : ℕ) (buf : List ℕ) (total i n suspicious : ℕ)
    → i ≤ n
    → n < total
    → n - i < fuel
    → get_or buf n 0 ≡ 0
    → IsText buf i n
    → scan_bytes fuel buf total i suspicious ≡ true
unfolding scan_bytes
scan_bytes_nul zero buf total i n suspicious le lt enough nul text = absurd (omega arith)
scan_bytes_nul (suc fuel) buf total i n suspicious le lt enough nul text = elim (ℕ_discrete i n) [
  | yes e ↦ rw (ltb_of_lt i total (omega arith)) (rw (ap (λ k. get_or buf k 0) e ∙ nul) refl)
  | no ne ↦ rw (ltb_of_lt i total (omega arith)) (
      rw (==_of_ne (get_or buf i 0) 0 (text i (le_refl i) (omega arith)).0) (
        rw (text i (le_refl i) (omega arith)).1 (
          scan_bytes_nul fuel buf total (i + 1) n suspicious (omega arith) lt (omega arith) nul
            (λ j from. text j (omega arith)))))
]

too_many_zero : (n : ℕ) → too_many 0 n ≡ false
unfolding too_many
too_many_zero zero = refl
too_many_zero (suc n) = ground (arith, zero-div (suc n))

-- The first byte is not that of a byte order mark.
no_mark : (c : ℕ) → IsTextByte c → (c == 0xef) ≡ false
unfolding is_odd_byte
no_mark c h = ground arith

first_no_mark :
    (buf : List ℕ) (n : ℕ) → get_or buf n 0 ≡ 0 → IsText buf 0 n → (get_or buf 0 0 == 0xef) ≡ false
first_no_mark buf n nul text = elim (ℕ_discrete n 0) [
  | yes e ↦ rw (ap (λ k. get_or buf k 0) (sym e) ∙ nul) refl
  | no ne ↦ no_mark (get_or buf 0 0) (text 0 (le_refl 0) (omega arith)).1
]

-- A buffer that holds only text bytes in its first 512 is no binary data, unless it begins with the
-- mark of a PDF file.
pub is_binary-text :
    (buf : List ℕ)
    → IsText buf 0 (min (length buf) 512)
    → has_prefix buf pdf_mark ≡ false
    → is_binary buf ≡ false
unfolding is_binary
is_binary-text buf text pdf = ground (
  arith,
  scan_bytes_text (min (length buf) 512) buf (min (length buf) 512) 0 0 text (too_many_zero _),
)

-- A NUL in the first 512 bytes with nothing but text before it makes the buffer binary.
pub is_binary-nul :
    (buf : List ℕ) (n : ℕ)
    → n < length buf
    → n < 512
    → get_or buf n 0 ≡ 0
    → IsText buf 0 n
    → is_binary buf ≡ true
unfolding is_binary
is_binary-nul buf n inside early nul text = ground (
  arith,
  first_no_mark buf n nul text,
  scan_bytes_nul (min (length buf) 512) buf (min (length buf) 512) 0 n 0 (omega arith) (omega arith)
      (omega arith) nul text,
)

few_of_ten : (n : ℕ) → 10 ≤ n → too_many 1 n ≡ false
unfolding too_many
few_of_ten n h = ltb_of_le 10 (1 * 100 / n) (div-le_of_le-mul n (omega arith))

behind_two :
    (a b : ℕ) (rest : List ℕ) (total : ℕ)
    → total ≤ suc (suc (length rest))
    → IsText rest 0 (length rest)
    → IsText (a ∷ (b ∷ rest)) 2 total
behind_two a b rest total inside text zero from to = absurd (omega arith)
behind_two a b rest total inside text (suc zero) from to = absurd (omega arith)
behind_two a b rest total inside text (suc (suc j)) from to = text j (omega arith) (omega arith)

scan_bytes_missed :
    (fuel : ℕ) (lead : ℕ) (rest : List ℕ) (total : ℕ)
    → 0 < fuel
    → 193 < lead
    → lead < 224
    → 10 ≤ total
    → total ≤ suc (suc (length rest))
    → IsText rest 0 (length rest)
    → scan_bytes fuel (lead ∷ (0 ∷ rest)) total 0 0 ≡ false
unfolding scan_bytes utf8_step is_odd_byte is_continuation
scan_bytes_missed zero lead rest total some_fuel low high ten inside text = absurd (omega arith)
scan_bytes_missed (suc fuel) lead rest total some_fuel low high ten inside text = ground (
  arith,
  scan_bytes_text fuel (lead ∷ (0 ∷ rest)) total 2 1 (behind_two lead 0 rest total inside text)
      (few_of_ten total ten),
)

-- A NUL straight behind the first byte of a two-byte UTF-8 sequence is stepped over: with eight or
-- more text bytes behind them the buffer is no binary data.
pub is_binary-nul_missed :
    (lead : ℕ) (rest : List ℕ)
    → 193 < lead
    → lead < 224
    → 8 ≤ length rest
    → IsText rest 0 (length rest)
    → is_binary (lead ∷ (0 ∷ rest)) ≡ false
unfolding is_binary
is_binary-nul_missed lead rest low high long text = ground (
  arith,
  pdf,
  scan_bytes_missed (min (suc (suc (length rest))) 512) lead rest
      (min (suc (suc (length rest))) 512) (omega arith) low high (omega arith) (omega arith) text,
)
  where
    pdf : has_prefix (lead ∷ (0 ∷ rest)) pdf_mark ≡ false
    pdf = unfold has_prefix in ground arith
