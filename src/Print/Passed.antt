-- ===== src/Print/Passed.antt =====
-- What the context of `print_file_matches` in ag_src/print.c keeps of the lines that it has passed.
use libag.Common.{
  ℕ, zero, suc, ◌+◌, ◌-◌, ◌≤◌, ◌<◌, ◌≡◌, ◌≢◌, ◌⊎◌, ◌∙◌, refl, sym, ap, Bool, true, false, ◌&&◌,
  List, [], ◌∷◌, ◌++◌, All, length, take, drop, get_or, get_or-drop, length-append, ◌==◌, arith,
  inl, inr, fault, done, Returns, Returns->>=, Returns-map, ltb, subst,
}
use libag.Cstr.{Str}
use libag.Libag.Results.{Match}
use libag.Cli.{PathPrint}
use libag.Cli.Settled.{if-holds}
use libag.Print.{PrintOptions}
use libag.Print.Context.{
  Context, print_context_append, print_prev_lines, lines_to_print, separator,
  print_trailing_context,
}
use libag.Print.File.{FileState, start_match, end_match, line_text, end_line, at_start, at_end}
use libag.Print.Ring.{Keeps, print_context_append-Keeps, lines_to_print-le, print_prev_lines-Keeps}
use libag.Print.Shown.{Any}

-- The lines, the last one first, each with a newline behind it.
unfoldable pub unlines_back : List Str → Str
unlines_back [] = []
unlines_back (line ∷ before) = unlines_back before ++ (line ++ (b'\n' ∷ []))

abbrev pub IsLine : Str → Type 0
IsLine line = (k : ℕ) → get_or line k 0 ≢ b'\n'

take-suc :
    (i : ℕ) (xs : List ℕ) → i < length xs → take (suc i) xs ≡ take i xs ++ (get_or xs i 0 ∷ [])
take-suc i [] h = absurd (omega arith)
take-suc zero (x ∷ xs) h = refl
take-suc (suc i) (x ∷ xs) h = ap (λ r. x ∷ r) (take-suc i xs (omega arith))

-- The bytes up to a newline at `i` are those up to `a`, and a line.
take-line :
    (a n i : ℕ) (xs : List ℕ)
    → a + n ≡ i
    → i < length xs
    → take (suc i) xs ≡ take a xs ++ (take n (drop a xs) ++ (get_or xs i 0 ∷ []))
take-line zero n i xs from inside =
    let e : i ≡ n = omega (arith, from) in
    take-suc i xs inside ∙ ap (λ k. take k xs ++ (get_or xs i 0 ∷ [])) e
take-line (suc a) n i [] from inside = absurd (omega arith)
take-line (suc a) n zero (x ∷ xs) from inside = absurd (omega arith)
take-line (suc a) n (suc i) (x ∷ xs) from inside =
    ap (λ r. x ∷ r) (take-line a n i xs (omega (arith, from)) (omega arith))

take-drop-append :
    (a n : ℕ) (xs ys : List ℕ) → a + n ≤ length xs → take n (drop a (xs ++ ys)) ≡ take n (drop a xs)
take-drop-append zero zero xs ys h = refl
take-drop-append zero (suc n) [] ys h = absurd (omega arith)
take-drop-append zero (suc n) (x ∷ xs) ys h =
    ap (λ r. x ∷ r) (take-drop-append zero n xs ys (omega arith))
take-drop-append (suc a) n [] ys h = absurd (omega arith)
take-drop-append (suc a) n (x ∷ xs) ys h = take-drop-append a n xs ys (omega arith)

get_or-append-end :
    (i : ℕ) (xs : List ℕ)
    → i ≤ length xs
    → (i ≡ length xs) ⊎ (get_or xs i 0 ≡ b'\n')
    → get_or (xs ++ (b'\n' ∷ [])) i 0 ≡ b'\n'
get_or-append-end zero [] h e = refl
get_or-append-end (suc i) [] h e = absurd (omega arith)
get_or-append-end zero (x ∷ xs) h (inl e) = absurd (omega (arith, e))
get_or-append-end zero (x ∷ xs) h (inr e) = e
get_or-append-end (suc i) (x ∷ xs) h (inl e) =
    get_or-append-end i xs (omega arith) (inl (omega (arith, e)))
get_or-append-end (suc i) (x ∷ xs) h (inr e) = get_or-append-end i xs (omega arith) (inr e)

take-IsLine : (n : ℕ) (xs : List ℕ) → ((k : ℕ) → k < n → get_or xs k 0 ≢ b'\n') → IsLine (take n xs)
take-IsLine zero xs h k = λ e. ground (arith, e)
take-IsLine (suc n) [] h k = λ e. ground (arith, e)
take-IsLine (suc n) (x ∷ xs) h zero = h 0 (omega arith)
take-IsLine (suc n) (x ∷ xs) h (suc k) = take-IsLine n xs (λ j lt. h (suc j) (omega arith)) k

module _ (opts : PrintOptions) (mode : PathPrint) (path : Str) (buf : List ℕ)
    (matches : List Match) where
  -- Where the context stands in front of the byte at `i`: the ring has the lines that are passed, and
  -- the line is their number and one.
  pub record Passed (i : ℕ) (c : Context) : Type 0 where
    pub recent : List Str
    pub kept : Keeps opts.before c recent
    pub text : unlines_back recent ≡ take c.prev_line_offset (buf ++ (b'\n' ∷ []))
    pub lines : All IsLine recent
    pub number : c.line ≡ suc (length recent)
    pub from : c.prev_line_offset ≤ i
    pub within : (k : ℕ) → c.prev_line_offset ≤ k → k < i → get_or buf k 0 ≢ b'\n'

  -- The other fields do not matter.
  Passed-marked :
      (i : ℕ) (c : Context) (since last : ℕ) (in_match printing : Bool)
      → Passed i c
      → Passed i (record c {
        lines_since_last_match = since;
        last_printed_match = last;
        in_a_match = in_match;
        printing_a_match = printing;
      })
  Passed-marked i c since last in_match printing p = record {
    recent = p.recent;
    kept = record { in_ring = p.kept.in_ring; room = p.kept.room; cell = p.kept.cell };
    text = p.text;
    lines = p.lines;
    number = p.number;
    from = p.from;
    within = p.within;
  }

  pub start_match-Passed :
      (i : ℕ) (s : FileState)
      → Passed i s.ctx
      → Returns (λ t. Passed i t.ctx) (start_match opts mode path buf matches i s)
  unfolding start_match
  start_match-Passed i s p =
      if-holds (Returns (λ t. Passed i t.ctx)) (at_start opts mode path buf matches i s) _ (done s)
        (λ e.
          Returns->>= Any (λ t. Passed i t.ctx) _ _
            (if-holds (Returns Any) (ltb 0 s.ctx.lines_since_last_match && ltb 0 opts.before)
              (print_prev_lines opts mode path (separator opts) s.ctx (lines_to_print opts s.ctx)
                (opts.before - lines_to_print opts s.ctx))
              (done [])
              (λ shown.
                subst (Returns Any)
                  (sym (
                    print_prev_lines-Keeps opts mode path (separator opts) s.ctx p.recent
                      (lines_to_print opts s.ctx) p.kept (lines_to_print-le opts s.ctx)))
                  tt)
              (λ e'. tt))
            (λ lines any. Passed-marked i s.ctx 0 _ true _ p))
        (λ e. p)

  pub end_match-Passed :
      (i : ℕ) (s : FileState)
      → Passed i s.ctx
      → Passed i (end_match opts mode path buf matches i s).ctx
  unfolding end_match
  end_match-Passed i s p =
      if-holds (λ t. Passed i t.ctx) (at_end opts mode path buf matches i s) _ s
        (λ e. Passed-marked i s.ctx _ _ false _ p) (λ e. p)

  -- The line up to `i` is in the ring, and is not yet passed.
  pub record Appended (i : ℕ) (old c : Context) (recent : List Str) : Type 0 where
    pub kept : Keeps opts.before c (line_text opts mode path buf matches i old ∷ recent)
    pub same_offset : c.prev_line_offset ≡ old.prev_line_offset
    pub same_line : c.line ≡ old.line

  line_text-IsLine :
      (i : ℕ) (c : Context) → Passed i c → IsLine (line_text opts mode path buf matches i c)
  unfolding line_text
  line_text-IsLine i c p =
      take-IsLine (i - c.prev_line_offset) (drop c.prev_line_offset buf) (λ k lt e.
        p.within (c.prev_line_offset + k) (omega arith) (omega (arith, lt, p.from))
          (sym (get_or-drop c.prev_line_offset k buf 0) ∙ e))

  unlines_back-Passed :
      (i : ℕ) (c : Context) (p : Passed i c)
      → i ≤ length buf
      → (i ≡ length buf) ⊎ (get_or buf i 0 ≡ b'\n')
      → unlines_back (line_text opts mode path buf matches i c ∷ p.recent)
        ≡ take (i + 1) (buf ++ (b'\n' ∷ []))
  unfolding unlines_back line_text
  unlines_back-Passed i c p inside ends =
      let from = p.from in
      let whole = buf ++ (b'\n' ∷ []) in
      let len : length whole ≡ length buf + 1 = length-append {0} buf (b'\n' ∷ []) in
      let at : i + 1 ≡ suc i = omega arith in
      let line = take (i - c.prev_line_offset) (drop c.prev_line_offset buf) in
      sym (
        ap (λ k. take k whole) at
        ∙ take-line c.prev_line_offset (i - c.prev_line_offset) i whole (omega (arith, from))
            (omega (arith, len))
        ∙ ap (λ l. take c.prev_line_offset whole ++ (l ++ (get_or whole i 0 ∷ [])))
            (take-drop-append c.prev_line_offset (i - c.prev_line_offset) buf (b'\n' ∷ [])
              (omega (arith, from)))
        ∙ ap (λ b. take c.prev_line_offset whole ++ (line ++ (b ∷ [])))
            (get_or-append-end i buf inside ends)
        ∙ ap (λ l. l ++ (line ++ (b'\n' ∷ []))) (sym p.text))

  pub end_line-Passed :
      (i : ℕ) (old : Context) (s : FileState) (p : Passed i old)
      → Appended i old s.ctx p.recent
      → 0 < length buf
      → i ≤ length buf
      → (i ≡ length buf) ⊎ (get_or buf i 0 ≡ b'\n')
      → Returns (λ t. Passed (suc i) t.ctx) (end_line opts mode path buf matches i s)
  unfolding end_line print_trailing_context
  end_line-Passed i old s p a nonempty inside ends =
      if-holds (Returns (λ t. Passed (suc i) t.ctx)) (i == 0 && length buf == 0) fault _
        (λ e. ground (arith, e, nonempty))
        (λ e. record {
          recent = line_text opts mode path buf matches i old ∷ p.recent;
          kept = record { in_ring = a.kept.in_ring; room = a.kept.room; cell = a.kept.cell };
          text = unlines_back-Passed i old p inside ends;
          lines = (line_text-IsLine i old p, p.lines);
          number = omega (arith, a.same_line, p.number);
          from = omega arith;
          within = λ k low high. absurd (omega (arith, low, high));
        })

  pub append-Appended :
      (i : ℕ) (c : Context) (p : Passed i c)
      → Returns
          (λ d. Appended i c d p.recent)
          (print_context_append opts.before (line_text opts mode path buf matches i c) c)
  append-Appended i c p =
      let line = line_text opts mode path buf matches i c in
      Returns-map
        (λ d.
          Keeps opts.before d (line ∷ p.recent)
          × (d.prev_line_offset ≡ c.prev_line_offset)
          × (d.line ≡ c.line))
        (λ d. Appended i c d p.recent) _
        (λ d h. record { kept = h.0; same_offset = h.1; same_line = h.2 })
        (print_context_append-Keeps opts.before c p.recent line p.kept)

  pub Appended-printed :
      (i : ℕ) (old c : Context) (recent : List Str) (last : ℕ) (printing : Bool)
      → Appended i old c recent
      → Appended i old (record c { last_printed_match = last; printing_a_match = printing }) recent
  Appended-printed i old c recent last printing a = record {
    kept = record { in_ring = a.kept.in_ring; room = a.kept.room; cell = a.kept.cell };
    same_offset = a.same_offset;
    same_line = a.same_line;
  }
