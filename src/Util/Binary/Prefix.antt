-- ===== src/Util/Binary/Prefix.antt =====
-- `is_binary` of ag_src/util.c looks at no byte behind the first 512.
use libag.Common.{
  ℕ, zero, suc, ◌+◌, ◌≤◌, ◌<◌, ◌≡◌, refl, ◌∙◌, false, ◌&&◌, List, [], ◌∷◌, ◌++◌, length, take, drop,
  get_or, ltb, leb, min, Bool-cases, &&-false, inl, inr, ltb→lt, leb→le, arith, length-append,
  length-drop, length-take_of_le,
}
use libag.Cstr.{has_prefix}
use libag.Util.Binary.{utf8_step, scan_bytes, is_binary, pdf_mark}

module _ (a b : List ℕ) (total_bytes : ℕ)
    (same : (k : ℕ) → k < total_bytes → get_or a k 0 ≡ get_or b k 0) where
  utf8_step-prefix :
      (i : ℕ) → i < total_bytes → utf8_step a total_bytes i ≡ utf8_step b total_bytes i
  unfolding utf8_step
  utf8_step-prefix i h = elim (Bool-cases (ltb (i + 1) total_bytes)) [
    | inl in1 ↦ elim (Bool-cases (ltb (i + 2) total_bytes)) [
      | inl in2 ↦ rw (same i h, same (i + 1) (ltb→lt _ _ in1), same (i + 2) (ltb→lt _ _ in2)) refl
      | inr out2 ↦
          rw
            (
              same i h,
              same (i + 1) (ltb→lt _ _ in1),
              out2,
              &&-false (ltb (get_or b i 0) 240),
              &&-false (ltb 223 (get_or b i 0)),
            )
            refl
    ]
    | inr out1 ↦
        let out2 : ltb (i + 2) total_bytes ≡ false = ground arith in
        rw
          (
            same i h,
            out1,
            out2,
            &&-false (ltb (get_or b i 0) 224),
            &&-false (ltb 193 (get_or b i 0)),
            &&-false (ltb (get_or b i 0) 240),
            &&-false (ltb 223 (get_or b i 0)),
          )
          refl
  ]

  scan_bytes-prefix :
      (fuel i suspicious_bytes : ℕ)
      → scan_bytes fuel a total_bytes i suspicious_bytes
        ≡ scan_bytes fuel b total_bytes i suspicious_bytes
  unfolding scan_bytes
  scan_bytes-prefix zero i suspicious_bytes = refl
  scan_bytes-prefix (suc fuel) i suspicious_bytes = elim (Bool-cases (ltb i total_bytes)) [
    | inl inside ↦
        let h = ltb→lt i total_bytes inside in
        let next = i + (utf8_step b total_bytes i).0 + 1 in
        rw
          (
            inside,
            same i h,
            utf8_step-prefix i h,
            scan_bytes-prefix fuel next (suspicious_bytes + 1),
            scan_bytes-prefix fuel next suspicious_bytes,
            scan_bytes-prefix fuel (i + 1) suspicious_bytes,
          )
          refl
    | inr outside ↦ rw outside refl
  ]

has_prefix-get_or :
    (a b p : List ℕ)
    → length p ≤ length a
    → length p ≤ length b
    → ((k : ℕ) → k < length p → get_or a k 0 ≡ get_or b k 0)
    → has_prefix a p ≡ has_prefix b p
unfolding has_prefix
has_prefix-get_or a b [] ha hb same = refl
has_prefix-get_or [] b (y ∷ p) ha hb same = absurd (omega arith)
has_prefix-get_or (x ∷ a) [] (y ∷ p) ha hb same = absurd (omega arith)
has_prefix-get_or (x ∷ a) (z ∷ b) (y ∷ p) ha hb same =
    let head : x ≡ z = same 0 (omega arith) in
    rw
      (
        head,
        has_prefix-get_or a b p (omega arith) (omega arith) (λ k h. same (suc k) (omega arith)),
      )
      refl

get_or-append : (xs ys : List ℕ) (k : ℕ) → k < length xs → get_or (xs ++ ys) k 0 ≡ get_or xs k 0
get_or-append [] ys k h = absurd (omega arith)
get_or-append (x ∷ xs) ys zero h = refl
get_or-append (x ∷ xs) ys (suc k) h = get_or-append xs ys k (omega arith)

get_or-take : (n : ℕ) (xs : List ℕ) (k : ℕ) → k < n → get_or (take n xs) k 0 ≡ get_or xs k 0
get_or-take zero xs k h = absurd (omega arith)
get_or-take (suc n) [] k h = refl
get_or-take (suc n) (x ∷ xs) zero h = refl
get_or-take (suc n) (x ∷ xs) (suc k) h = get_or-take n xs k (omega arith)

-- Two buffers of one length that agree in their first 512 bytes.
pub is_binary-prefix :
    (a b : List ℕ)
    → length a ≡ length b
    → ((k : ℕ) → k < min (length b) 512 → get_or a k 0 ≡ get_or b k 0)
    → is_binary a ≡ is_binary b
unfolding is_binary
is_binary-prefix a b e same = elim (Bool-cases (leb 3 (length b))) [
  | inl three ↦
      let s0 = same 0 (ground (arith, leb→le 3 (length b) three)) in
      let s1 = same 1 (ground (arith, leb→le 3 (length b) three)) in
      let s2 = same 2 (ground (arith, leb→le 3 (length b) three)) in
      rw (e, s0, s1, s2, pdf_same, scanned) refl
  | inr short ↦ rw (e, short, pdf_same, scanned) refl
]
  where
    scanned :
        scan_bytes (min (length b) 512) a (min (length b) 512) 0 0
        ≡ scan_bytes (min (length b) 512) b (min (length b) 512) 0 0
    scanned = scan_bytes-prefix a b (min (length b) 512) same (min (length b) 512) 0 0

    pdf_same :
        (leb 5 (length b) && has_prefix a pdf_mark) ≡ (leb 5 (length b) && has_prefix b pdf_mark)
    pdf_same = elim (Bool-cases (leb 5 (length b))) [
      | inl long ↦
          let five = leb→le 5 (length b) long in
          rw
            (has_prefix-get_or a b pdf_mark (omega (arith, e, five)) five
              (λ k h. same k (omega (arith, five, h))))
            refl
      | inr short ↦ rw short refl
    ]

-- What is read of a file up to 512 bytes decides, whatever the rest of the buffer holds.
pub is_binary-first_bytes :
    (content garbage : List ℕ)
    → length garbage ≡ length content
    → is_binary (
        take (min (length content) 512) content
        ++ drop (length (take (min (length content) 512) content)) garbage)
      ≡ is_binary content
is_binary-first_bytes content garbage e =
    let n = min (length content) 512 in
    let first = take n content in
    let n_first : length first ≡ n = length-take_of_le n content (omega arith) in
    is_binary-prefix (first ++ drop (length first) garbage) content
      (omega (
        arith,
        e,
        n_first,
        length-append {0} first (drop (length first) garbage),
        length-drop (length first) garbage,
      ))
      (λ k h.
        get_or-append first (drop (length first) garbage) k (omega (arith, n_first))
        ∙ get_or-take n content k h)
