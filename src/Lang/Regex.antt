-- ===== src/Lang/Regex.antt =====
-- `make_lang_regex` writes the alternatives, and never outside its buffer.
use libag.Common.{
  ℕ, zero, suc, ◌+◌, ◌*◌, ◌≤◌, ◌<◌, ◌≡◌, refl, sym, ap, ◌∙◌, subst, inl, inr, Bool, true, false,
  List, [], ◌∷◌, ◌++◌, append-nil, append_assoc, length, length-append, ltb, leb_of_le, done,
  Returns, Returns->>=, Returns-value, Bool-cases, arith,
}
use libag.Cstr.{Str}
use libag.Lang.{
  Buffer, append, grow_regex, bar, add_extension, add_extensions, opening, closing, make_lang_regex,
}

-- The extensions, with bars between them and, if others stand before, in front.
pub alternatives : Bool → List Str → List ℕ
alternatives subsequent [] = []
alternatives subsequent (ext ∷ rest) = (bar subsequent ++ ext) ++ alternatives true rest

-- Room for two bytes and a NUL.
abbrev Roomy : List ℕ → Buffer → Type 0
Roomy bytes b = (b.regex ≡ bytes) × (length bytes + 3 ≤ b.regex_capacity)

grow_regex-Returns :
    (fuel need : ℕ) (b : Buffer)
    → 0 < fuel
    → 0 < b.regex_capacity
    → need < fuel + b.regex_capacity
    → Returns (λ r. (r.regex ≡ b.regex) × (need ≤ r.regex_capacity)) (grow_regex fuel need b)
unfolding grow_regex
grow_regex-Returns zero need b some_fuel some enough = absurd (omega arith)
grow_regex-Returns (suc fuel) need b some_fuel some enough =
    elim (Bool-cases (ltb b.regex_capacity need)) [
      | inl small ↦ rw small (
          grow_regex-Returns fuel need (record b { regex_capacity = b.regex_capacity * 2 })
            (ground arith) (omega arith) (omega arith))
      | inr fits ↦ rw fits (refl, ground arith)
    ]

append-Returns :
    (b : Buffer) (bytes : List ℕ) (more : ℕ)
    → length b.regex + length bytes + more ≤ b.regex_capacity
    → append b bytes more ≡ done (record b { regex = b.regex ++ bytes })
unfolding append
append-Returns b bytes more le =
    rw (leb_of_le (length b.regex + length bytes + more) b.regex_capacity le) refl

add_extension-Returns :
    (subsequent : Bool) (b : Buffer) (ext : Str)
    → length b.regex + 3 ≤ b.regex_capacity
    → Returns (Roomy (b.regex ++ (bar subsequent ++ ext))) (add_extension subsequent b ext)
unfolding add_extension
add_extension-Returns subsequent b ext room =
    Returns->>=
      (λ r.
        (r.regex ≡ b.regex)
        × (length b.regex + length ext + 3 + length (bar subsequent) ≤ r.regex_capacity))
      (Roomy (b.regex ++ (bar subsequent ++ ext))) (grow_regex _ _ b) _
      (grow_regex-Returns (length b.regex + length ext + 3 + length (bar subsequent) + 1)
        (length b.regex + length ext + 3 + length (bar subsequent)) b (omega arith) (omega arith)
        (omega arith))
      (λ r h.
        rw
          (append-Returns r (bar subsequent) 0
            (omega (arith, h.1, ap (λ (l : List ℕ). length l) h.0)))
          (rw
            (append-Returns (record r { regex = r.regex ++ bar subsequent }) ext 1
              (omega (
                arith,
                h.1,
                ap (λ (l : List ℕ). length l) h.0,
                length-append {0} r.regex (bar subsequent),
              )))
            (
              append_assoc r.regex (bar subsequent) ext
                  ∙ ap (λ l. l ++ (bar subsequent ++ ext)) h.0,
              omega (
                arith,
                h.1,
                length-append {0} b.regex (bar subsequent ++ ext),
                length-append {0} (bar subsequent) ext,
              ),
            )))

add_extensions-Returns :
    (subsequent : Bool) (b : Buffer) (exts : List Str)
    → length b.regex + 3 ≤ b.regex_capacity
    → Returns (Roomy (b.regex ++ alternatives subsequent exts)) (add_extensions subsequent b exts)
unfolding add_extensions alternatives
add_extensions-Returns subsequent b [] room =
    (sym (append-nil b.regex), omega (arith, length-append {0} b.regex []))
add_extensions-Returns subsequent b (ext ∷ rest) room =
    Returns->>= (Roomy (b.regex ++ (bar subsequent ++ ext)))
      (Roomy (b.regex ++ ((bar subsequent ++ ext) ++ alternatives true rest)))
      (add_extension subsequent b ext) _ (add_extension-Returns subsequent b ext room)
      (λ b' h.
        subst (λ l. Returns (Roomy l) (add_extensions true b' rest))
          (ap (λ l. l ++ alternatives true rest) h.0
            ∙ append_assoc b.regex (bar subsequent ++ ext) (alternatives true rest))
          (add_extensions-Returns true b' rest
            (omega (arith, h.1, ap (λ (l : List ℕ). length l) h.0))))

-- For every list of extensions, of any length, the expression is the alternatives between brackets,
-- up to the end of a name; every byte, the NUL included, is stored inside the buffer.
pub make_lang_regex-alternatives :
    (exts : List Str)
    → make_lang_regex exts ≡ done (opening ++ (alternatives false exts ++ closing))
unfolding make_lang_regex
make_lang_regex-alternatives exts =
    let (b, e, h) =
      Returns-value (Roomy (opening ++ alternatives false exts))
        (add_extensions false (record { regex_capacity = 100; regex = opening }) exts)
        (add_extensions-Returns false (record { regex_capacity = 100; regex = opening }) exts
          (omega arith)) in
    rw e (
      rw (append-Returns b closing 1 (omega (arith, h.1, ap (λ (l : List ℕ). length l) h.0))) (
        ap done
          (ap (λ l. l ++ closing) h.0 ∙ append_assoc opening (alternatives false exts) closing)))
