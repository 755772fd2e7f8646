-- ===== src/Search/Literal/Scan.antt =====
-- The literal part of `search_buf` finds the occurrences of the query from left to right.
use libag.Common.{
  ℕ, zero, suc, ◌+◌, ◌-◌, ◌≤◌, ◌<◌, ◌≡◌, refl, sym, ap, ◌∙◌, subst, ◌⊎◌, inl, inr, Bool, true, ◌&&◌,
  none, some, List, [], ◌∷◌, ◌++◌, append-nil, append_assoc, length, length-append, length-drop,
  drop, ltb, leb, Run, done, Returns, Returns->>=, Returns-map, Bool-cases, ltb_of_le, leb_of_lt,
  arith,
}
use libag.Util.Literal.{IsComparable, Matches, FirstAt, match_here}
use libag.Util.Hash.Probe.{Serves}
use libag.Util.Hash.Correct.{hash_strnstr-FirstAt}
use libag.Libag.Results.{Match}
use libag.Search.Matches.{realloc_matches, add_match}
use libag.Search.Matches.{Matches as Array}
use libag.Search.Literal.{
  Tables, LiteralOptions, strnstr_at, on_words, take_match, literal_round, literal_loop,
  search_literal,
}

drop-nil {ℓ} : {A : Type ℓ} (n : ℕ) → drop {A = A} n [] ≡ []
drop-nil zero = refl
drop-nil (suc n) = refl

drop-drop {ℓ} : {A : Type ℓ} (n m : ℕ) (xs : List A) → drop m (drop n xs) ≡ drop (n + m) xs
drop-drop zero m xs = ap (λ k. drop k xs) {x = m} (omega arith)
drop-drop (suc n) m [] = drop-nil m ∙ sym (drop-nil (suc n + m))
drop-drop (suc n) m (x ∷ xs) =
    drop-drop n m xs ∙ ap (λ k. drop k (x ∷ xs)) {x = suc (n + m)} (omega arith)

-- The array has the spare cells, or there is none yet.
abbrev pub HasRoom : ℕ → Array → Type 0
HasRoom spare a =
    ((a.matches_size ≡ 0) × (a.matches ≡ []))
    ⊎ ((0 < a.matches_size) × (length a.matches + spare ≤ a.matches_size))

-- A match is added without a store out of bounds.
pub add_match-HasRoom :
    (spare : ℕ) (a : Array) (m : Match)
    → spare ≤ 1
    → HasRoom spare a
    → Returns (λ a'. (a'.matches ≡ a.matches ++ (m ∷ [])) × HasRoom spare a') (add_match a spare m)
unfolding add_match realloc_matches
add_match-HasRoom spare a m small room = ground (arith, length-append {0} a.matches (m ∷ []))

module _ (opts : LiteralOptions) (query : List ℕ) (tables : Tables) (buf : List ℕ) where
  -- Whether the limit of matches for a file is reached.
  abbrev pub AtLimit : ℕ → Type 0
  AtLimit n = (0 < opts.max_matches_per_file) × (opts.max_matches_per_file ≤ n)

  abbrev pub NoneFrom : ℕ → ℕ → Type 0
  NoneFrom o p =
      (r : ℕ)
      → o ≤ r
      → r < p
      → r + length query ≤ length buf
      → ¬ Matches opts.case_sensitive query buf r

  -- The matches from a place on, when there are `n` already: each is the first occurrence behind the
  -- one before, and there is no other behind the last, unless the limit is reached.
  unfoldable pub Scan : ℕ → ℕ → List Match → Type 0
  Scan n o [] = NoneFrom o (length buf) ⊎ AtLimit n
  Scan n o (m ∷ ms) =
      (o ≤ m.start)
      × (m.end ≡ m.start + length query)
      × (m.end ≤ length buf)
      × Matches opts.case_sensitive query buf m.start
      × NoneFrom o m.start
      × Scan (n + 1) m.end ms

  abbrev Scanned : ℕ → Array → Array → Type 0
  Scanned o a a' =
      (ms : List Match) × (a'.matches ≡ a.matches ++ ms)
      × Scan (length a.matches) o ms
      × HasRoom opts.matches_spare a'

  abbrev cs : Bool
  cs = opts.case_sensitive

  into_rest : (o r : ℕ) → o ≤ r → Matches cs query buf r → Matches cs query (drop o buf) (r - o)
  into_rest o r le m =
      subst (λ l. match_here cs query l ≡ done true)
        (sym (drop-drop o (r - o) buf ∙ ap (λ k. drop k buf) (omega arith))) m

  out_of_rest : (o at : ℕ) → Matches cs query (drop o buf) at → Matches cs query buf (o + at)
  out_of_rest o at m = subst (λ l. match_here cs query l ≡ done true) (drop-drop o at buf) m

  none_from : (o : ℕ) → FirstAt cs query (drop o buf) none → NoneFrom o (length buf)
  none_from o first r le lt fits m =
      first (r - o) (omega (arith, length-drop {0} o buf)) (into_rest o r le m)

  none_before : (o at : ℕ) → FirstAt cs query (drop o buf) (some at) → NoneFrom o (o + at)
  none_before o at first r le lt fits m = first.2 (r - o) (omega arith) (into_rest o r le m)

  on_words-none :
      (start : ℕ)
      → opts.word_regexp ≡ none
      → on_words opts query tables buf opts.word_regexp start ≡ true
  unfolding on_words
  on_words-none start e = rw e refl

  module _
      (finds : (o : ℕ)
        → Returns (FirstAt cs query (drop o buf)) (strnstr_at opts query tables buf o))
      (some_query : 1 ≤ length query) (no_words : opts.word_regexp ≡ none)
      (small : opts.matches_spare ≤ 1) where
    -- A match and what is found behind it.
    cons_scan :
        (o at : ℕ) (a a' b : Array)
        → o < length buf
        → FirstAt cs query (drop o buf) (some at)
        → a'.matches ≡ a.matches ++ (record { start = o + at; end = o + at + length query } ∷ [])
        → Scanned (o + at + length query) a' b
        → Scanned o a b
    unfolding Scan
    cons_scan o at a a' b lt first e (ms, f, scan, room) = (
      record { start = o + at; end = o + at + length query } ∷ ms,
      f
          ∙ ap (λ l. l ++ ms) e
          ∙ append_assoc a.matches (record { start = o + at; end = o + at + length query } ∷ []) ms,
      (
        omega arith,
        refl,
        omega (arith, first.0, length-drop {0} o buf),
        out_of_rest o at first.1,
        none_before o at first,
        subst (λ n. Scan n (o + at + length query) ms)
            (ap (λ l. length l) e
              ∙ length-append {0} a.matches
                  (record { start = o + at; end = o + at + length query } ∷ []))
            scan,
      ),
      room,
    )

    -- What the rest of the loop owes.
    abbrev Goes : (ℕ → Array → Run Array) → ℕ → Type 0
    Goes next o =
        (p : ℕ) (a : Array)
        → HasRoom opts.matches_spare a
        → o < p
        → p ≤ length buf
        → Returns (Scanned p a) (next p a)

    at_limit :
        (n p : ℕ)
        → (ltb 0 opts.max_matches_per_file && leb opts.max_matches_per_file n) ≡ true
        → Scan n p []
    unfolding Scan
    at_limit n p full = inr (ground arith)

    take_match-Scanned :
        (next : ℕ → Array → Run Array) (o at : ℕ) (a : Array)
        → Goes next o
        → HasRoom opts.matches_spare a
        → o < length buf
        → FirstAt cs query (drop o buf) (some at)
        → Returns (Scanned o a) (take_match opts query tables buf next (o + at) a)
    unfolding take_match
    take_match-Scanned next o at a goes room lt first =
        Returns->>=
          (λ a'.
            (a'.matches
              ≡ a.matches ++ (record { start = o + at; end = o + at + length query } ∷ []))
            × HasRoom opts.matches_spare a')
          (Scanned o a)
          (add_match a opts.matches_spare (record { start = o + at; end = o + at + length query }))
          _
          (add_match-HasRoom opts.matches_spare a
            (record { start = o + at; end = o + at + length query }) small room)
          (λ a' added.
            elim (Bool-cases (
              ltb 0 opts.max_matches_per_file
              && leb opts.max_matches_per_file (length a'.matches))) [
                | inl full ↦ rw full (
                    cons_scan o at a a' a' lt first added.0 (
                      [],
                      sym (append-nil a'.matches),
                      at_limit (length a'.matches) (o + at + length query) full,
                      added.1,
                    ))
                | inr more ↦ rw more (
                    Returns-map (Scanned (o + at + length query) a') (Scanned o a)
                      (next (o + at + length query) a')
                      (λ b. cons_scan o at a a' b lt first added.0)
                      (goes (o + at + length query) a' added.1 (omega arith)
                        (omega (arith, first.0, length-drop {0} o buf))))
              ])

    literal_round-Scanned :
        (next : ℕ → Array → Run Array) (o : ℕ) (a : Array)
        → Goes next o
        → HasRoom opts.matches_spare a
        → o ≤ length buf
        → Returns (Scanned o a) (literal_round opts query tables buf next o a)
    unfolding literal_round Scan
    literal_round-Scanned next o a goes room le = elim (Bool-cases (ltb o (length buf))) [
      | inr ended ↦
          rw ended
            ([], sym (append-nil a.matches), inl (λ r from to fits m. absurd (ground arith)), room)
      | inl lt ↦ rw lt (
          Returns->>= (FirstAt cs query (drop o buf)) (Scanned o a)
            (strnstr_at opts query tables buf o) _ (finds o)
            (elim [
              | none ↦ λ first. ([], sym (append-nil a.matches), inl (none_from o first), room)
              | some at ↦ λ first.
                  rw (on_words-none (o + at) no_words)
                    (take_match-Scanned next o at a goes room (ground arith) first)
            ]))
    ]

    literal_loop-Scanned :
        (fuel o : ℕ) (a : Array)
        → HasRoom opts.matches_spare a
        → o ≤ length buf
        → length buf < fuel + o
        → Returns (Scanned o a) (literal_loop opts query tables buf fuel o a)
    unfolding literal_loop
    literal_loop-Scanned zero o a room le enough = absurd (omega arith)
    literal_loop-Scanned (suc fuel) o a room le enough =
        literal_round-Scanned (literal_loop opts query tables buf fuel) o a
          (λ p a' room' lt le'. literal_loop-Scanned fuel p a' room' le' (omega arith)) room le

  strnstr_at-FirstAt :
      (o : ℕ)
      → Serves query cs tables.h_table
      → IsComparable cs query
      → 3 ≤ length query
      → length query < 255
      → Returns (FirstAt cs query (drop o buf)) (strnstr_at opts query tables buf o)
  unfolding strnstr_at
  strnstr_at-FirstAt o serves comparable three small =
      rw (ltb_of_le (length query) 3 three, leb_of_lt 255 (length query) small)
        (hash_strnstr-FirstAt (drop o buf) query tables.h_table cs serves comparable (omega arith))

  -- For a query of 3 to 254 bytes, searched with the case or of ASCII bytes, and a table that serves
  -- it, the literal search of a buffer returns the occurrences of the query from left to right, each
  -- the first behind the one before, until there is none or the limit is reached; no match is stored
  -- outside the array.
  pub search_literal-Scan :
      (a : Array)
      → Serves query cs tables.h_table
      → IsComparable cs query
      → 3 ≤ length query
      → length query < 255
      → opts.word_regexp ≡ none
      → opts.matches_spare ≤ 1
      → HasRoom opts.matches_spare a
      → a.matches ≡ []
      → Returns (λ a'. Scan 0 0 a'.matches) (search_literal opts query tables buf a)
  unfolding search_literal
  search_literal-Scan a serves comparable three small no_words spare room empty =
      Returns-map (Scanned 0 a) (λ a'. Scan 0 0 a'.matches)
        (literal_loop opts query tables buf (length buf + 1) 0 a)
        (λ a' s.
          subst (Scan 0 0) (sym (s.1 ∙ ap (λ l. l ++ s.0) empty))
            (subst (λ n. Scan n 0 s.0) (ap (λ l. length l) empty) s.2))
        (literal_loop-Scanned (λ o. strnstr_at-FirstAt o serves comparable three small)
          (omega arith) no_words spare (length buf + 1) 0 a room (omega arith) (omega arith))
