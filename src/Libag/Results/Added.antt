-- ===== src/Libag/Results/Added.antt =====
-- What `add_local_result` adds, and what it leaves when it fails.
use libag.Common.{
  ℕ, ◌+◌, ◌-◌, ◌^◌, ◌≤◌, ◌<◌, ◌≡◌, ◌≢◌, refl, sym, ap, ◌∙◌, ap₂, inl, inr, true, false, ◌&&◌,
  Option, none, some, List, [], ◌∷◌, ◌++◌, map, All, length, length-append, take, drop, Bool-cases,
  done, Returns, Returns->>=, Ensures, Ensures->>=, arith, append-nil, Ensures-map, if◌then◌else◌,
  ◌==◌,
}
use libag.Cstr.{Str}
use libag.Libag.Results.{
  Match, AgMatch, AgResult, Flag, ThrdResult, Memory, Status, ok, failed, sub_size, copy_bytes,
  copy_matches, grow, store_result, add_local_result,
}

-- A match inside the buffer; it may be empty.
abbrev pub InBuffer : List ℕ → Match → Type 0
InBuffer buf m = (m.start ≤ m.end) × (m.end ≤ length buf)

-- What a caller gets for a match: the bytes with the places of the first and of the last. The place in
-- front of an empty match at the start of the buffer is the largest `size_t`.
abbrev pub reported : List ℕ → Match → AgMatch
reported buf m = record {
  byte_start = m.start;
  byte_end = if m.end == 0 then 2 ^ 64 - 1 else m.end - 1;
  text = take (m.end - m.start) (drop m.start buf);
}

abbrev pub Plentiful : Memory → Type 0
Plentiful memory = (n : ℕ) → memory n ≡ true

module _ (buf : List ℕ) (small : length buf < 2 ^ 64) where
  copy_bytes-InBuffer :
      (m : Match)
      → InBuffer buf m
      → copy_bytes buf m ≡ done (take (m.end - m.start) (drop m.start buf))
  unfolding copy_bytes
  copy_bytes-InBuffer m ins = ground arith

  reported_end :
      (m : Match)
      → InBuffer buf m
      → sub_size m.end 1 ≡ (if m.end == 0 then 2 ^ 64 - 1 else m.end - 1)
  reported_end m ins = ground (arith, ins.1, small)

  -- A list that comes back holds what is owed; with enough memory one comes back.
  abbrev Copied : List Match → Option (List AgMatch) → Type 0
  Copied ms (some list) = list ≡ map (reported buf) ms
  Copied ms none = Unit

  copy_matches-Copied :
      (memory : Memory) (n : ℕ) (ms : List Match)
      → All (InBuffer buf) ms
      → Ensures (Copied ms) (copy_matches memory n buf ms)
  unfolding copy_matches
  copy_matches-Copied memory n [] ins = refl
  copy_matches-Copied memory n (m ∷ ms) ins = elim (Bool-cases (memory n)) [
    | inr no_struct ↦ rw no_struct tt
    | inl struct ↦ elim (Bool-cases (memory (n + 1))) [
      | inr no_bytes ↦ rw (struct, no_bytes) tt
      | inl bytes ↦
          rw (struct, bytes, copy_bytes-InBuffer m ins.0)
            (Ensures->>= (Copied ms) (Copied (m ∷ ms)) (copy_matches memory (n + 2) buf ms) _
              (copy_matches-Copied memory (n + 2) ms ins.1)
              (elim [
                | none ↦ λ _. tt
                | some list ↦ λ e. ap₂ ◌∷◌ (ap (λ k. agmatch m k) (reported_end m ins.0)) e
              ]))
    ]
  ]
    where
      agmatch : Match → ℕ → AgMatch
      agmatch k last = record {
        byte_start = k.start;
        byte_end = last;
        text = take (k.end - k.start) (drop k.start buf);
      }

  copy_matches_total :
      (memory : Memory) (n : ℕ) (ms : List Match)
      → Plentiful memory
      → All (InBuffer buf) ms
      → Returns (λ r. r ≢ none) (copy_matches memory n buf ms)
  unfolding copy_matches
  copy_matches_total memory n [] mem ins = λ e. ground arith
  copy_matches_total memory n (m ∷ ms) mem ins = rw (mem n) (
      rw (mem (n + 1), copy_bytes-InBuffer m ins.0)
        (Returns->>= (λ r. r ≢ none) (λ r. r ≢ none) (copy_matches memory (n + 2) buf ms) _
          (copy_matches_total memory (n + 2) ms mem ins.1)
          (elim [ none ↦ λ h. absurd (h refl) | some list ↦ λ h e. ground arith ])))

pub record IsValid (t : ThrdResult) : Type 0 where
  pub room : length t.results ≤ t.capacity
  pub some_room : 0 < t.capacity

-- What is owed for the matches of a file.
pub owed : Str → List Match → List ℕ → Flag → List AgResult
owed name [] buf flag = []
owed name (m ∷ ms) buf flag =
    record { file = name; matches = map (reported buf) (m ∷ ms); flags = flag } ∷ []

-- A call that succeeds appends what is owed; one that fails appends nothing. Both keep the array
-- large enough.
abbrev pub Appends : ThrdResult → List AgResult → Status × ThrdResult → Type 0
Appends t more (ok, t') = (t'.results ≡ t.results ++ more) × IsValid t'
Appends t more (failed, t') = (t'.results ≡ t.results) × IsValid t'

-- `grow` makes room for one more result, unless it reports a failure.
grow-IsValid : (memory : Memory) (t : ThrdResult) → IsValid t → IsValid (grow memory t).0
unfolding grow
grow-IsValid memory t v = ground arith

grow_room :
    (memory : Memory) (t : ThrdResult)
    → IsValid t
    → (grow memory t).1 ≡ false
    → length (grow memory t).0.results < (grow memory t).0.capacity
unfolding grow
grow_room memory t v h = ground arith

results-grow : (memory : Memory) (t : ThrdResult) → (grow memory t).0.results ≡ t.results
unfolding grow
results-grow memory t = ground arith

Appends-grow :
    (memory : Memory) (t : ThrdResult) (more : List AgResult) (r : Status × ThrdResult)
    → Appends (grow memory t).0 more r
    → Appends t more r
Appends-grow memory t more (ok, t') a = (a.0 ∙ ap (λ l. l ++ more) (results-grow memory t), a.1)
Appends-grow memory t more (failed, t') a = (a.0 ∙ results-grow memory t, a.1)

grow_fine : (memory : Memory) (t : ThrdResult) → Plentiful memory → (grow memory t).1 ≡ false
unfolding grow
grow_fine memory t mem = ground (arith, mem 0)

module _ (buf : List ℕ) (small : length buf < 2 ^ 64) (name : Str) (flag : Flag) where
  abbrev entry : List AgMatch → AgResult
  entry list = record { file = name; matches = list; flags = flag }

  store_result-Appends :
      (memory : Memory) (t : ThrdResult) (ms : List Match)
      → IsValid t
      → length t.results < t.capacity
      → All (InBuffer buf) ms
      → Ensures
          (Appends t (entry (map (reported buf) ms) ∷ []))
          (store_result memory t name ms buf flag)
  unfolding store_result
  store_result-Appends memory t ms v room ins =
      elim (Bool-cases (memory 1 && (memory 2 && memory 3))) [
        | inr none_left ↦ rw none_left (refl, v)
        | inl plenty ↦ rw plenty (
            Ensures->>= (Copied buf small ms) (Appends t (entry (map (reported buf) ms) ∷ []))
              (copy_matches memory 4 buf ms) _ (copy_matches-Copied buf small memory 4 ms ins)
              (elim [
                | none ↦ λ _. (refl, v)
                | some list ↦ λ e. (
                  ap (λ l. t.results ++ (entry l ∷ [])) e,
                  record {
                    room = omega (arith, length-append {0} t.results (entry list ∷ []));
                    some_room = v.some_room;
                  },
                )
              ]))
      ]

  -- Whatever the allocations do, a call with matches inside the buffer that returns has appended what
  -- is owed for the file if it returns 0, and nothing if it returns -1.
  pub add_local_result-Appends :
      (memory : Memory) (t : ThrdResult) (ms : List Match)
      → IsValid t
      → All (InBuffer buf) ms
      → Ensures (Appends t (owed name ms buf flag)) (add_local_result memory t name ms buf flag)
  unfolding add_local_result owed
  add_local_result-Appends memory t [] v ins = (sym (append-nil t.results), v)
  add_local_result-Appends memory t (m ∷ ms) v ins = elim (Bool-cases (grow memory t).1) [
    | inl full ↦ rw full (results-grow memory t, grow-IsValid memory t v)
    | inr fine ↦ rw fine (
        Ensures-map (Appends (grow memory t).0 (entry (map (reported buf) (m ∷ ms)) ∷ []))
          (Appends t (entry (map (reported buf) (m ∷ ms)) ∷ [])) _
          (Appends-grow memory t (entry (map (reported buf) (m ∷ ms)) ∷ []))
          (store_result-Appends memory (grow memory t).0 (m ∷ ms) (grow-IsValid memory t v)
            (grow_room memory t v fine) ins))
  ]

  -- With enough memory the call returns 0.
  pub add_local_result-ok :
      (memory : Memory) (t : ThrdResult) (ms : List Match)
      → Plentiful memory
      → All (InBuffer buf) ms
      → Returns (λ r. r.0 ≡ ok) (add_local_result memory t name ms buf flag)
  unfolding add_local_result store_result
  add_local_result-ok memory t [] mem ins = refl
  add_local_result-ok memory t (m ∷ ms) mem ins = rw (grow_fine memory t mem) (
      rw (mem 1) (
        rw (mem 2) (
          rw (mem 3) (
            Returns->>= (λ r. r ≢ none) (λ r. r.0 ≡ ok) (copy_matches memory 4 buf (m ∷ ms)) _
              (copy_matches_total buf small memory 4 (m ∷ ms) mem ins)
              (elim [ none ↦ λ h. absurd (h refl) | some list ↦ λ h. refl ])))))
