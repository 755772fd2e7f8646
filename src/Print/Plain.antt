-- ===== src/Print/Plain.antt =====
-- Without colours a line with matches is printed as it is by ag_src/print.c.
use libag.Common.{
  ℕ, zero, suc, ◌+◌, ◌-◌, ◌≤◌, ◌<◌, ◌≡◌, refl, sym, ap, ◌∙◌, Bool, false, ◌&&◌, List, [], ◌∷◌, ◌++◌,
  append-nil, append_assoc, length, take, drop, get_or, ltb, if◌then◌else◌, Run, done, Returns,
  Returns->>=, Returns-map, Bool-cases, inl, inr, ltb_of_lt, &&-false, arith,
}
use libag.Cstr.{Str}
use libag.Libag.Results.{Match}
use libag.Cli.{PathPrint}
use libag.Print.{PrintOptions, print_line_number}
use libag.Print.Line.{
  LineState, emit, starts_at, ends_at, close_match, exceeds, truncate, match_header, open_match,
  put_byte, line_loop, print_matched_line,
}

-- No colours, no limit of the width, no column, and whole lines.
pub record IsPlain (opts : PrintOptions) : Type 0 where
  pub no_color : opts.color ≡ false
  pub no_width : opts.width ≡ 0
  pub no_column : opts.column ≡ false
  pub whole_lines : opts.only_matching ≡ false

-- A byte in front of those behind it.
take-drop-suc :
    (n j : ℕ) (buf : List ℕ)
    → j < length buf
    → (get_or buf j 0 ∷ []) ++ take n (drop (suc j) buf) ≡ take (suc n) (drop j buf)
take-drop-suc n j [] h = absurd (omega arith)
take-drop-suc n zero (c ∷ buf) h = refl
take-drop-suc n (suc j) (c ∷ buf) h = take-drop-suc n j buf (omega arith)

module _ (opts : PrintOptions) (mode : PathPrint) (path : Str) (buf : List ℕ) (matches : List Match)
    (line prev_line_offset : ℕ) (plain : IsPlain opts) where
  close_match-out :
      (j : ℕ) (s : LineState)
      → (close_match opts mode path buf matches line prev_line_offset j s).out ≡ s.out
  unfolding close_match
  close_match-out j s =
      elim (Bool-cases (ends_at opts mode path buf matches line prev_line_offset j s)) [
        | inl e ↦ rw (e, plain.no_color, plain.whole_lines) (append-nil s.out)
        | inr e ↦ rw e refl
      ]

  exceeds-false : (j : ℕ) → exceeds opts mode path buf matches line prev_line_offset j ≡ false
  unfolding exceeds
  exceeds-false j = rw (plain.no_width) (&&-false (ltb j (length buf)))

  open_match-out :
      (j : ℕ) (s : LineState)
      → Returns
          (λ t. t.out ≡ s.out)
          (open_match opts mode path buf matches line prev_line_offset j s)
  unfolding open_match match_header
  open_match-out j s =
      elim (Bool-cases (starts_at opts mode path buf matches line prev_line_offset j s)) [
        | inl e ↦ rw (e, plain.no_color, plain.whole_lines) (append-nil s.out)
        | inr e ↦ rw e refl
      ]

  put_byte-out :
      (j : ℕ) (s : LineState)
      → j < length buf
      → (put_byte opts mode path buf matches line prev_line_offset j s).out
        ≡ s.out ++ (get_or buf j 0 ∷ [])
  unfolding put_byte emit
  put_byte-out j s h = rw (ltb_of_lt j (length buf) h, plain.whole_lines, plain.no_width) refl

  truncate-out :
      (i j : ℕ) (s : LineState)
      → (truncate opts mode path buf matches line prev_line_offset i j s).out ≡ s.out
  unfolding truncate
  truncate-out i j s = rw (exceeds-false j) refl

  line_loop-out :
      (n i j : ℕ) (s : LineState)
      → i < length buf
      → n + j ≡ i + 1
      → Returns
          (λ t. t.out ≡ s.out ++ take n (drop j buf))
          (line_loop opts mode path buf matches line prev_line_offset n i j s)
  unfolding line_loop
  line_loop-out zero i j s inside e = sym (append-nil s.out)
  line_loop-out (suc n) i j s inside e =
      let closed = close_match opts mode path buf matches line prev_line_offset j s in
      let cut = truncate opts mode path buf matches line prev_line_offset i j closed in
      let here : j < length buf = omega (arith, e, inside) in
      rw (exceeds-false j) (
        Returns->>= (λ t. t.out ≡ s.out) (λ t. t.out ≡ s.out ++ take (suc n) (drop j buf))
          (open_match opts mode path buf matches line prev_line_offset j cut) _
          (Returns-map (λ t. t.out ≡ cut.out) (λ t. t.out ≡ s.out) _
            (λ t same. same ∙ truncate-out i j closed ∙ close_match-out j s) (open_match-out j cut))
          (λ t same.
            let put = put_byte opts mode path buf matches line prev_line_offset j t in
            Returns-map (λ u. u.out ≡ put.out ++ take n (drop (suc j) buf))
              (λ u. u.out ≡ s.out ++ take (suc n) (drop j buf)) _
              (λ u grown.
                grown
                ∙ ap (λ l. l ++ take n (drop (suc j) buf))
                    (put_byte-out j t here ∙ ap (λ l. l ++ (get_or buf j 0 ∷ [])) same)
                ∙ append_assoc s.out (get_or buf j 0 ∷ []) (take n (drop (suc j) buf))
                ∙ ap (λ l. s.out ++ l) (take-drop-suc n j buf here))
              (line_loop-out n i (suc j) put inside (omega (arith, e)))))

  no_highlight : (b : Bool) (colour : Str) → (if b && opts.color then colour else []) ≡ []
  no_highlight b colour = rw (plain.no_color, &&-false b) refl

  no_column : (number : Run Str) → Returns (λ c. c ≡ []) (if opts.column then number else done [])
  no_column number = rw (plain.no_column) refl

  -- A line with matches that ends in a newline is printed, without colours, as its number and its
  -- bytes with the newline, whatever matches there are and wherever they end.
  pub print_matched_line-out :
      (i : ℕ) (s : LineState)
      → prev_line_offset ≤ i
      → i < length buf
      → Returns
          (λ t.
            t.out
            ≡ s.out
              ++ (print_line_number opts line b':'
                  ++ take (i + 1 - prev_line_offset) (drop prev_line_offset buf)))
          (print_matched_line opts mode path buf matches line prev_line_offset i s)
  unfolding print_matched_line emit
  print_matched_line-out i s from inside =
      let number = print_line_number opts line b':' in
      let bytes = take (i + 1 - prev_line_offset) (drop prev_line_offset buf) in
      let text = λ (c : Str).
        number ++ (c ++ (if s.printing_a_match && opts.color then opts.color_match else [])) in
      Returns->>= (λ c. c ≡ []) (λ t. t.out ≡ s.out ++ (number ++ bytes)) _ _ (no_column _)
        (λ c none_there.
          let started = record s { out = s.out ++ text c; printed_match = false } in
          let only_number : text c ≡ number =
            ap
              (λ l.
                number
                ++ (l ++ (if s.printing_a_match && opts.color then opts.color_match else [])))
              none_there
            ∙ ap (λ l. number ++ l) (no_highlight s.printing_a_match opts.color_match)
            ∙ append-nil number in
          Returns->>= (λ t. t.out ≡ started.out ++ bytes) (λ t. t.out ≡ s.out ++ (number ++ bytes))
            _ _
            (line_loop-out (i + 1 - prev_line_offset) i prev_line_offset started inside
              (omega (arith, from)))
            (λ t grown.
              ap (λ l. t.out ++ l) (no_highlight t.printing_a_match _)
              ∙ append-nil t.out
              ∙ grown
              ∙ ap (λ l. (s.out ++ l) ++ bytes) only_number
              ∙ append_assoc s.out number bytes))
