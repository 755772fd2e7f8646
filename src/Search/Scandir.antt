-- ===== src/Search/Scandir.antt =====
-- `ag_scandir` of ag_src/scandir.c.
use libag.Common.{
  ℕ, ◌+◌, ◌*◌, ◌≡◌, refl, Bool, true, false, not, ◌&&◌, Option, none, some, List, [], ◌∷◌, ◌++◌,
  append-nil, append_assoc, length, leb, if◌then◌else◌, Run, done, fault, ltb, ap, ◌∙◌,
  length-append, dec_lt, leb_of_le, leb_of_lt, ltb_of_lt, ◌≤◌, ◌<◌, ◌>>=◌, All, Returns,
  Returns->>=, Bool-cases, inl, inr, arith,
}
use libag.Util.Entry.{Dirent}
use libag.Libag.Results.{Memory}
use libag.Libag.Results.Added.{Plentiful}

-- `names[results_len] = d; results_len++;` in an array of `names_len` cells.
unfoldable pub store_name : ℕ → List Dirent → Dirent → Run (List Dirent)
store_name names_len names entry =
    if ltb (length names) names_len then done (names ++ (entry ∷ [])) else fault

-- The loop over the entries: `names_len` is the length of the array, `n` counts the allocations;
-- `none` is the way to `fail`.
unfoldable pub scan_entries :
    (Dirent → Run Bool) → Memory → ℕ → ℕ → List Dirent → List Dirent → Run (Option (List Dirent))
scan_entries filter memory n names_len names [] = done (some names)
scan_entries filter memory n names_len names (entry ∷ rest) =
    let skip = scan_entries filter memory n names_len names rest in
    let full = leb names_len (length names) in
    let more = λ (m len : ℕ) (stored : List Dirent). scan_entries filter memory m len stored rest in
    let grown : Run (Option (List Dirent)) =
      store_name (names_len * 2) names entry >>= more (n + 2) (names_len * 2) in
    let added : Run (Option (List Dirent)) =
      store_name names_len names entry >>= more (n + 1) names_len in
    filter entry >>= λ accepted.
    if not accepted
    then skip
    else if full
    then if memory n && memory (n + 1) then grown else done none
    else if memory n
    then added
    else done none

-- An open directory; the first allocation is the array.
unfoldable pub ag_scandir : (Dirent → Run Bool) → Memory → List Dirent → Run (Option (List Dirent))
ag_scandir filter memory entries =
    if memory 0 then scan_entries filter memory 1 32 [] entries else done none

-- The entries that a filter accepts, in their order.
unfoldable pub accepted : (Dirent → Bool) → List Dirent → List Dirent
accepted f [] = []
accepted f (d ∷ ds) = if f d then d ∷ accepted f ds else accepted f ds

store_name-fits :
    (names_len : ℕ) (names : List Dirent) (d : Dirent)
    → length names < names_len
    → store_name names_len names d ≡ done (names ++ (d ∷ []))
unfolding store_name
store_name-fits names_len names d room = rw (ltb_of_lt (length names) names_len room) refl

-- The array has a cell, and no more names than cells.
abbrev Fits : ℕ → List Dirent → Type 0
Fits names_len names = (0 < names_len) × (length names ≤ names_len)

Fits-added :
    (names_len : ℕ) (names : List Dirent) (d : Dirent)
    → length names < names_len
    → Fits names_len (names ++ (d ∷ []))
Fits-added names_len names d room =
    (omega arith, omega (arith, room, length-append {0} names (d ∷ [])))

scan_entries-accepted :
    (filter : Dirent → Run Bool) (f : Dirent → Bool) (memory : Memory) (n names_len : ℕ)
    (names entries : List Dirent)
    → ((d : Dirent) → filter d ≡ done (f d))
    → Plentiful memory
    → Fits names_len names
    → scan_entries filter memory n names_len names entries
      ≡ done (some (names ++ accepted f entries))
unfolding scan_entries accepted
scan_entries-accepted filter f memory n names_len names [] total mem fits =
    rw (append-nil names) refl
scan_entries-accepted filter f memory n names_len names (d ∷ ds) total mem fits =
    let next = λ (m len : ℕ) (room : length names < len).
      scan_entries-accepted filter f memory m len (names ++ (d ∷ [])) ds total mem
        (Fits-added len names d room)
      ∙ ap (λ l. done (some l)) (append_assoc names (d ∷ []) (accepted f ds)) in
    elim (Bool-cases (f d)) [
      | inr skipped ↦
          rw (total d, skipped)
            (scan_entries-accepted filter f memory n names_len names ds total mem fits)
      | inl kept ↦ elim (dec_lt (length names) names_len) [
        | yes room ↦
            rw
              (
                total d,
                kept,
                leb_of_lt names_len (length names) room,
                mem n,
                store_name-fits names_len names d room,
              )
              (next (n + 1) names_len room)
        | no full ↦
            let room : length names < names_len * 2 = omega (arith, fits) in
            rw
              (
                total d,
                kept,
                leb_of_le names_len (length names) (omega arith),
                mem n,
                mem (n + 1),
                store_name-fits (names_len * 2) names d room,
              )
              (next (n + 2) (names_len * 2) room)
      ]
    ]

-- With memory, the list of a directory has the entries that the filter accepts, in the order of
-- `readdir`; no name is stored outside of the array, however often it has to grow.
pub ag_scandir-accepted :
    (filter : Dirent → Run Bool) (f : Dirent → Bool) (memory : Memory) (entries : List Dirent)
    → ((d : Dirent) → filter d ≡ done (f d))
    → Plentiful memory
    → ag_scandir filter memory entries ≡ done (some (accepted f entries))
unfolding ag_scandir
ag_scandir-accepted filter f memory entries total mem =
    rw (mem 0)
      (scan_entries-accepted filter f memory 1 32 [] entries total mem (omega arith, omega arith))

-- A directory can be listed, or the memory for it is not there, if the filter answers for its entries.
scan_entries-Returns :
    (filter : Dirent → Run Bool) (memory : Memory) (n names_len : ℕ) (names entries : List Dirent)
    → All (λ d. Returns (λ (b : Bool). Unit {0}) (filter d)) entries
    → Fits names_len names
    → Returns
        (λ (r : Option (List Dirent)). Unit {0})
        (scan_entries filter memory n names_len names entries)
unfolding scan_entries
scan_entries-Returns filter memory n names_len names [] total fits = tt
scan_entries-Returns filter memory n names_len names (d ∷ ds) total fits =
    Returns->>= (λ b. Unit {0}) (λ r. Unit {0}) (filter d) _ total.0
      (λ b _.
        returns_if (not b) _ _
          (λ e. scan_entries-Returns filter memory n names_len names ds total.1 fits)
          (λ _.
            returns_if (leb names_len (length names)) _ _
              (λ full.
                returns_if (memory n && memory (n + 1)) _ _
                  (λ _.
                    let room : length names < names_len * 2 = omega (arith, fits) in
                    rw (store_name-fits (names_len * 2) names d room) (
                      scan_entries-Returns filter memory (n + 2) (names_len * 2) (names ++ (d ∷ []))
                        ds total.1 (Fits-added (names_len * 2) names d room)))
                  (λ _. tt))
              (λ free.
                returns_if (memory n) _ _
                  (λ _.
                    let room : length names < names_len = ground (arith, free) in
                    rw (store_name-fits names_len names d room) (
                      scan_entries-Returns filter memory (n + 1) names_len (names ++ (d ∷ [])) ds
                        total.1 (Fits-added names_len names d room)))
                  (λ _. tt))))
  where
    returns_if :
        (c : Bool) (a b : Run (Option (List Dirent)))
        → (c ≡ true → Returns (λ (r : Option (List Dirent)). Unit {0}) a)
        → (c ≡ false → Returns (λ (r : Option (List Dirent)). Unit {0}) b)
        → Returns (λ (r : Option (List Dirent)). Unit {0}) (if c then a else b)
    returns_if true a b ha hb = ha refl
    returns_if false a b ha hb = hb refl

pub ag_scandir-Returns :
    (filter : Dirent → Run Bool) (memory : Memory) (entries : List Dirent)
    → All (λ d. Returns (λ (b : Bool). Unit {0}) (filter d)) entries
    → Returns (λ (r : Option (List Dirent)). Unit {0}) (ag_scandir filter memory entries)
unfolding ag_scandir
ag_scandir-Returns filter memory entries total = elim (Bool-cases (memory 0)) [
  | inl there ↦
      rw there (scan_entries-Returns filter memory 1 32 [] entries total (omega arith, omega arith))
  | inr out ↦ rw out tt
]
