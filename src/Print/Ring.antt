-- ===== src/Print/Ring.antt =====
-- The lines that ag_src/print.c keeps for the context of a match.
use native.Mathlib.Nat.{mod-lt, mod-eq_of_lt, mod-eq-sub-mod}
use libag.Common.{
  ℕ, zero, suc, ◌+◌, ◌-◌, ◌%◌, ◌≤◌, ◌<◌, ◌≡◌, ◌≢◌, ◌⊎◌, inl, inr, refl, sym, ap, ap₂, ◌∙◌, true,
  false, Option, none, some, List, [], ◌∷◌, ◌++◌, length, get_or, get_elem?, set, length-set,
  length-replicate, get_or-set_self, get_or-set_ne, get_or-replicate, get_elem?-eq-get_or,
  ltb_of_lt, ◌^◌, ltb, Run, done, fault, ◌>>=◌, Returns, ◌==◌, dec_lt, arith, ==_of_ne,
}
use libag.Cstr.{Str}
use libag.Cli.{PathPrint}
use libag.Print.{PrintOptions}
use libag.Print.Context.{
  Context, print_init_context, print_context_append, print_prev_line, print_prev_lines,
  lines_to_print,
}

-- Going round once.
mod-cases : (n x : ℕ) → x < n + n → ((x % n ≡ x) × (x < n)) ⊎ ((x % n ≡ x - n) × (n ≤ x))
mod-cases n x h = elim (dec_lt x n) [
  | yes p ↦ inl (mod-eq_of_lt p, p)
  | no p ↦ inr (
    mod-eq-sub-mod {n = x} {m = n} (omega arith) ∙ mod-eq_of_lt {n = x - n} {m = n} (omega arith),
    omega arith,
  )
]

-- The cell in front of the next one to fill is the last one filled.
newest_cell : (n a : ℕ) → a < n → ((a + 1) % n + (n - 1 - 0)) % n ≡ a
newest_cell n a h = elim (mod-cases n (a + 1) (omega arith)) [
  | inl (e, p) ↦ rw e (elim (mod-cases n (a + 1 + (n - 1 - 0)) (omega arith)) [
    | inl (f, q) ↦ absurd (omega arith)
    | inr (f, q) ↦ f ∙ omega arith
  ])
  | inr (e, p) ↦ rw e (elim (mod-cases n (a + 1 - n + (n - 1 - 0)) (omega arith)) [
    | inl (f, q) ↦ f ∙ omega arith
    | inr (f, q) ↦ absurd (omega arith)
  ])
]

-- The others keep their places, one further from the next one to fill.
older_cell :
    (n a k : ℕ)
    → a < n
    → suc k < n
    → (((a + 1) % n + (n - 1 - suc k)) % n ≡ (a + (n - 1 - k)) % n)
      × ((a + (n - 1 - k)) % n ≢ a)
      × ((a + (n - 1 - k)) % n < n)
older_cell n a k h b = elim (mod-cases n (a + (n - 1 - k)) (omega arith)) [
  | inl (g, r) ↦ elim (mod-cases n (a + 1) (omega arith)) [
    | inl (e, p) ↦
        rw (e, g)
          (
            ap (λ t. t % n) {x = a + 1 + (n - 1 - suc k)} (omega arith) ∙ g,
            (λ w. omega (arith, w)),
            omega arith,
          )
    | inr (e, p) ↦ absurd (omega arith)
  ]
  | inr (g, r) ↦ elim (mod-cases n (a + 1) (omega arith)) [
    | inl (e, p) ↦
        rw (e, g)
          (
            ap (λ t. t % n) {x = a + 1 + (n - 1 - suc k)} (omega arith) ∙ g,
            (λ w. omega (arith, w)),
            omega arith,
          )
    | inr (e, p) ↦
        rw (e, g)
          (
            mod-eq_of_lt {n = a + 1 - n + (n - 1 - suc k)} (omega arith) ∙ omega arith,
            (λ w. omega (arith, w)),
            omega arith,
          )
  ]
]

-- The context holds the lines, the last one first.
pub record Keeps (before : ℕ) (c : Context) (recent : List Str) : Type 0 where
  pub in_ring : c.last_prev_line < before
  pub room : before ≤ length c.context_prev_lines
  pub cell :
      (k : ℕ)
      → k < before
      → get_or c.context_prev_lines ((c.last_prev_line + (before - 1 - k)) % before) none
        ≡ get_elem? recent k

pub init-Keeps :
    (before : ℕ)
    → 0 < before
    → before < 2 ^ 64 - 1
    → Keeps before (print_init_context before none) []
unfolding print_init_context
init-Keeps before h small =
    let cells : (before + 1) % 2 ^ 64 ≡ before + 1 = mod-eq_of_lt (omega (arith, small)) in
    record {
      in_ring = h;
      room = omega (arith, cells, length-replicate {A = Option Str} ((before + 1) % 2 ^ 64) none);
      cell = λ k b.
          get_or-replicate ((before + 1) % 2 ^ 64) _ none none
            (omega (arith, cells, mod-lt (0 + (before - 1 - k)) {m = before} h));
    }

-- Where the context holds the lines so far, a line is stored inside of the array; then the context
-- holds it in front of the others, and the line counter and the start of the line are as before.
pub print_context_append-Keeps :
    (before : ℕ) (c : Context) (recent : List Str) (line : Str)
    → Keeps before c recent
    → Returns
        (λ d.
          Keeps before d (line ∷ recent)
          × (d.prev_line_offset ≡ c.prev_line_offset)
          × (d.line ≡ c.line))
        (print_context_append before line c)
unfolding print_context_append
print_context_append-Keeps before c recent line k =
    let some_ring : (before == 0) ≡ false = ==_of_ne before 0 (λ e. omega (arith, e, k.in_ring)) in
    let inside : ltb a (length cells) ≡ true =
      ltb_of_lt a (length cells) (omega (arith, k.in_ring, k.room)) in
    rw (some_ring, inside)
      (
        record {
          in_ring = mod-lt _ (omega (arith, k.in_ring));
          room = omega (arith, k.room, length-set cells a (some line));
          cell = λ m b. cell_after m b;
        },
        refl,
        refl,
      )
  where
    cells : List (Option Str)
    cells = c.context_prev_lines

    a : ℕ
    a = c.last_prev_line

    cell_after :
        (m : ℕ)
        → m < before
        → get_or (set cells a (some line)) (((a + 1) % before + (before - 1 - m)) % before) none
          ≡ get_elem? (line ∷ recent) m
    cell_after zero b =
        ap (λ i. get_or (set cells a (some line)) i none) (newest_cell before a k.in_ring)
        ∙ get_or-set_self cells a (some line) none (omega (arith, k.in_ring, k.room))
    cell_after (suc m) b =
        let (same, other, inside) = older_cell before a m k.in_ring b in
        ap (λ i. get_or (set cells a (some line)) i none) same
        ∙ get_or-set_ne cells a _ (some line) none (λ e. other (sym e))
        ∙ k.cell m (omega arith)

pub lines_to_print-le : (opts : PrintOptions) (c : Context) → lines_to_print opts c ≤ opts.before
unfolding lines_to_print
lines_to_print-le opts c = ground arith

-- The last `n` lines, the oldest first.
pub last_lines : PrintOptions → PathPrint → Str → ℕ → ℕ → ℕ → List Str → Str
last_lines opts mode path sep line zero recent = []
last_lines opts mode path sep line (suc n) recent =
    print_prev_line opts mode path sep (line - suc n) (get_elem? recent n)
    ++ last_lines opts mode path sep line n recent

-- Where the context holds the lines so far, what is printed in front of a match is the last lines, with
-- their numbers, from the oldest to the newest, as many as are asked for and there are; no cell outside
-- of the array is read.
pub print_prev_lines-Keeps :
    (opts : PrintOptions) (mode : PathPrint) (path : Str) (sep : ℕ) (c : Context)
    (recent : List Str) (n : ℕ)
    → Keeps opts.before c recent
    → n ≤ opts.before
    → print_prev_lines opts mode path sep c n (opts.before - n)
      ≡ done (last_lines opts mode path sep c.line n recent)
unfolding print_prev_lines last_lines
print_prev_lines-Keeps opts mode path sep c recent zero k h = refl
print_prev_lines-Keeps opts mode path sep c recent (suc n) k h =
    let shift : suc (opts.before - suc n) ≡ opts.before - n = omega (arith, h) in
    let number : c.line - (opts.before - (opts.before - suc n)) ≡ c.line - suc n =
      omega (arith, h) in
    let place : opts.before - suc n ≡ opts.before - 1 - n = omega (arith, h) in
    let cell =
      ap (λ j. get_or c.context_prev_lines ((c.last_prev_line + j) % opts.before) none) place
      ∙ k.cell n (omega (arith, h)) in
    let inside : (c.last_prev_line + (opts.before - suc n)) % opts.before < opts.before =
      mod-lt _ (omega (arith, h)) in
    let found =
      get_elem?-eq-get_or c.context_prev_lines _ none (omega (arith, inside, k.room))
      ∙ ap some cell in
    let rest =
      ap (print_prev_lines opts mode path sep c n) shift
      ∙ print_prev_lines-Keeps opts mode path sep c recent n k (omega (arith, h)) in
    ap₂
      (λ (cell' : Option (Option Str)) (lines : Run Str). elim cell' as (λ _. Run Str) [
        | none ↦ fault
        | some shown ↦ lines >>= λ more. done (
            print_prev_line opts mode path sep (c.line - (opts.before - (opts.before - suc n)))
              shown
            ++ more)
      ])
      found rest
    ∙ ap
        (λ m. done (
          print_prev_line opts mode path sep m (get_elem? recent n)
          ++ last_lines opts mode path sep c.line n recent))
        number
