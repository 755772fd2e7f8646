-- ===== src/Libag/Paths.antt =====
-- `prepare_paths` of libag.c, and what `ag_search` reads of its result, which it uses whatever the
-- function returns.
use libag.Common.{
  ℕ, ◌+◌, ◌-◌, ◌≡◌, refl, ap, inl, inr, Bool, true, not, ◌&&◌, Option, none, some, List, [], ◌∷◌,
  ◌++◌, map, length, length-append, get_or, take, ltb, ◌==◌, if◌then◌else◌, Run, done, fault, All,
  Bool-cases, Option-cases, arith,
}
use libag.Cstr.{Str}
use libag.Libag.Results.{Memory}
use libag.Libag.Results.Added.{Plentiful}

abbrev ends_in : ℕ → Str → Bool
ends_in c s = get_or s (length s - 1) 0 == c

-- "Kill trailing slash."
unfoldable pub kill_slash : Str → Str
kill_slash path =
    if ltb 1 (length path) && ends_in b'/' path then take (length path - 1) path else path

-- "Add trailing slash."
unfoldable pub add_slash : Str → Str
add_slash base =
    if ltb 1 (length base) && not (ends_in b'/' base) then base ++ (b'/' ∷ []) else base

-- A path with its base, which is NULL where `realpath` fails.
abbrev pub Target : Type 0
Target = Str × Option Str

-- `realpath` is that of the C library.
module _ (realpath : Str → Option Str) where
  unfoldable pub base_of : Str → Option Str
  base_of path = elim (realpath path) as (λ _. Option Str) [
    | none ↦ none
    | some base ↦ some (add_slash base)
  ]

  -- The loop. Its cells are NULL at first, so an early return ends the list; without memory for `tmp`
  -- the path is there and its base is not.
  unfoldable pub path_loop : Memory → ℕ → List Str → List Target
  path_loop memory n [] = []
  path_loop memory n (path ∷ rest) =
      let stripped = kill_slash path in
      let more = path_loop memory (n + 2) rest in
      if memory n
      then if memory (n + 1) then (stripped, base_of stripped) ∷ more else (stripped, none) ∷ []
      else []

  -- With paths: the first two allocations are the arrays. Without: the path ".", the arrays and `tmp`;
  -- the test of the second array returns if there is one, and then `paths[0]` has not been stored, and
  -- writes through NULL if there is none.
  unfoldable pub prepare_paths : Memory → List Str → Run (List Target)
  prepare_paths memory (path ∷ rest) =
      if memory 0
      then if memory 1 then done (path_loop memory 2 (path ∷ rest)) else done []
      else fault
  prepare_paths memory [] =
      let unstored : Run (List Target) = fault in
      let through_null : Run (List Target) = fault in
      if memory 0
      then if memory 1 then if memory 2 then unstored else through_null else fault
      else fault

  -- Without a path, where the current folder is meant, no outcome of the allocations gives `ag_search`
  -- a list of paths to read: it reads what has not been stored.
  pub prepare_paths-nil : (memory : Memory) → prepare_paths memory [] ≡ fault
  unfolding prepare_paths
  prepare_paths-nil memory = ground arith

  path_loop-map :
      (memory : Memory) (n : ℕ) (paths : List Str)
      → Plentiful memory
      → path_loop memory n paths ≡ map (λ p. (kill_slash p, base_of (kill_slash p))) paths
  unfolding path_loop
  path_loop-map memory n [] mem = refl
  path_loop-map memory n (path ∷ rest) mem = rw (mem n) (
      rw (mem (n + 1)) (
        ap (λ l. (kill_slash path, base_of (kill_slash path)) ∷ l)
          (path_loop-map memory (n + 2) rest mem)))

  -- A base that ends in a slash.
  abbrev pub HasSlash : Target → Type 0
  HasSlash (path, none) = Unit
  HasSlash (path, some base) = ends_in b'/' base ≡ true

  ends_in-append : (s : Str) (c : ℕ) → get_or (s ++ (c ∷ [])) (length s) 0 ≡ c
  ends_in-append [] c = refl
  ends_in-append (x ∷ s) c = ends_in-append s c

  add_slash-ends_in : (base : Str) → get_or base 0 0 ≡ b'/' → ends_in b'/' (add_slash base) ≡ true
  unfolding add_slash
  add_slash-ends_in base absolute =
      elim (Bool-cases (ltb 1 (length base) && not (ends_in b'/' base))) [
        | inl added ↦
            rw (added, add_slash)
              (is_slash (base ++ (b'/' ∷ [])) (length base)
                (omega (arith, length-append {0} base (b'/' ∷ []))) (ends_in-append base b'/'))
        | inr kept ↦
            rw (kept, add_slash)
              (elim (Bool-cases (ltb 1 (length base))) [
                | inl long ↦ ground arith
                | inr short ↦ is_slash base 0 (ground arith) absolute
              ])
      ]
    where
      is_slash : (s : Str) (i : ℕ) → length s - 1 ≡ i → get_or s i 0 ≡ b'/' → ends_in b'/' s ≡ true
      is_slash s i e h = ground (arith, ap (λ k. get_or s k 0) e)

  -- With memory, and a `realpath` that gives absolute paths, every path comes with its base, in the
  -- order of the caller, and each base ends in a slash, as `search_dir` expects.
  pub prepare_paths-HasSlash :
      (memory : Memory) (path : Str) (rest : List Str)
      → Plentiful memory
      → ((p base : Str) → realpath p ≡ some base → get_or base 0 0 ≡ b'/')
      → (prepare_paths memory (path ∷ rest)
          ≡ done (map (λ p. (kill_slash p, base_of (kill_slash p))) (path ∷ rest)))
        × All HasSlash (map (λ p. (kill_slash p, base_of (kill_slash p))) (path ∷ rest))
  unfolding prepare_paths base_of
  prepare_paths-HasSlash memory path rest mem absolute = (
    rw (mem 0) (rw (mem 1) (ap done (path_loop-map memory 2 (path ∷ rest) mem))),
    all (path ∷ rest),
  )
    where
      one : (p : Str) → HasSlash (kill_slash p, base_of (kill_slash p))
      one p = elim (Option-cases (realpath (kill_slash p))) [
        | inl failed ↦ rw (failed, base_of) tt
        | inr (base, e) ↦ rw (e, base_of) (add_slash-ends_in base (absolute (kill_slash p) base e))
      ]

      all : (ps : List Str) → All HasSlash (map (λ p. (kill_slash p, base_of (kill_slash p))) ps)
      all [] = tt
      all (p ∷ ps) = (one p, all ps)
