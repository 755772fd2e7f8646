-- ===== src/Search/Regex/Bounds.antt =====
-- A search by regular expression ends, and its matches lie in the buffer, one behind the other.
use libag.Common.{
  ℕ, zero, suc, ◌+◌, ◌<◌, ◌≤◌, ◌≡◌, sym, ap, ◌∙◌, subst, inl, inr, true, some, List, [], ◌∷◌, ◌++◌,
  append-nil, append_assoc, length, ltb, Returns, Returns->>=, Returns-map, Bool-cases,
  Option-cases, arith,
}
use libag.Libag.Results.{Match}
use libag.Search.Matches.{add_match}
use libag.Search.Matches.{Matches as Array}
use libag.Search.Literal.Scan.{HasRoom, add_match-HasRoom}
use libag.Search.Regex.{Exec, behind, reached, multiline_loop, search_regex}

-- What <pcre.h> says of a match without `\K`: it lies in the subject, from the offset on.
pub record Behaves (pcre_exec : Exec) : Type 0 where
  pub inside :
      (s : List ℕ) (o start end : ℕ)
      → pcre_exec s o ≡ some (start, end)
      → (o ≤ start) × (start ≤ end) × (end ≤ length s)

-- Matches from a place on, none over another.
abbrev pub Ordered : List ℕ → ℕ → List Match → Type 0
Ordered buf o [] = Unit
Ordered buf o (m ∷ ms) =
    (o ≤ m.start) × (m.start ≤ m.end) × (m.end ≤ length buf) × Ordered buf (behind m.start m.end) ms

behind-lt : (o start end : ℕ) → o ≤ start → start ≤ end → o < behind start end
unfolding behind
behind-lt o start end a b = ground arith

module _ (pcre_exec : Exec) (max spare : ℕ) (buf : List ℕ) (behaves : Behaves pcre_exec)
    (small : spare ≤ 1) where
  abbrev FoundFrom : ℕ → Array → Array → Type 0
  FoundFrom o a a' = (ms : List Match) × (a'.matches ≡ a.matches ++ ms) × Ordered buf o ms

  cons_found :
      (o start end : ℕ) (a a' b : Array)
      → pcre_exec buf o ≡ some (start, end)
      → a'.matches ≡ a.matches ++ (record { start = start; end = end } ∷ [])
      → FoundFrom (behind start end) a' b
      → FoundFrom o a b
  cons_found o start end a a' b e added (ms, f, ordered) =
      let (x, y, z) = behaves.inside buf o start end e in
      (
        record { start = start; end = end } ∷ ms,
        f
            ∙ ap (λ l. l ++ ms) added
            ∙ append_assoc a.matches (record { start = start; end = end } ∷ []) ms,
        (x, y, z, ordered),
      )

  multiline_loop-FoundFrom :
      (fuel o : ℕ) (a : Array)
      → HasRoom spare a
      → length buf < fuel + o
      → 0 < fuel
      → Returns (FoundFrom o a) (multiline_loop pcre_exec max spare buf fuel o a)
  unfolding multiline_loop
  multiline_loop-FoundFrom zero o a room enough some_fuel = absurd (omega arith)
  multiline_loop-FoundFrom (suc fuel) o a room enough some_fuel =
      elim (Bool-cases (ltb o (length buf))) [
        | inr ended ↦ rw ended ([], sym (append-nil a.matches), tt)
        | inl lt ↦ rw lt (elim (Option-cases (pcre_exec buf o)) [
          | inl no_match ↦ rw no_match ([], sym (append-nil a.matches), tt)
          | inr ((start, end), e) ↦ rw e (
              Returns->>=
                (λ a'.
                  (a'.matches ≡ a.matches ++ (record { start = start; end = end } ∷ []))
                  × HasRoom spare a')
                (FoundFrom o a) (add_match a spare (record { start = start; end = end })) _
                (add_match-HasRoom spare a (record { start = start; end = end }) small room)
                (λ a' added. elim (Bool-cases (reached pcre_exec max spare (length a'.matches))) [
                  | inl full ↦ rw full (
                      cons_found o start end a a' a' e added.0
                        ([], sym (append-nil a'.matches), tt))
                  | inr more ↦ rw more (
                      Returns-map (FoundFrom (behind start end) a') (FoundFrom o a)
                        (multiline_loop pcre_exec max spare buf fuel (behind start end) a')
                        (λ b. cons_found o start end a a' b e added.0)
                        (multiline_loop-FoundFrom fuel (behind start end) a' added.1
                          (omega (
                            arith,
                            behind-lt o start end (behaves.inside buf o start end e).0
                                (behaves.inside buf o start end e).1,
                          ))
                          (ground arith)))
                ]))
        ])
      ]

  -- A search over the whole buffer returns; its matches lie in the buffer and one behind the other.
  pub search_regex-Ordered :
      (a : Array)
      → HasRoom spare a
      → a.matches ≡ []
      → Returns (λ a'. Ordered buf 0 a'.matches) (search_regex pcre_exec max spare buf true a)
  unfolding search_regex
  search_regex-Ordered a room empty =
      Returns-map (FoundFrom 0 a) (λ a'. Ordered buf 0 a'.matches)
        (multiline_loop pcre_exec max spare buf (length buf + 1) 0 a)
        (λ a' f. subst (Ordered buf 0) (sym (f.1 ∙ ap (λ l. l ++ f.0) empty)) f.2)
        (multiline_loop-FoundFrom (length buf + 1) 0 a room (omega arith) (omega arith))
