-- ===== src/Tests/Paths.antt =====
-- The paths of a search.
use libag.Common.{◌≡◌, refl, true, Option, some, [], ◌∷◌, map, All, done, get_or, arith}
use libag.Cstr.{Str}
use libag.Libag.Results.{Memory}
use libag.Libag.Paths.{
  kill_slash, add_slash, base_of, path_loop, prepare_paths, HasSlash, prepare_paths-HasSlash,
}

program : Unit {0}
unfolding kill_slash add_slash base_of path_loop prepare_paths
program = tt

abbrev plenty : Memory
plenty n = true

-- Every path lies at "/d".
abbrev realpath : Str → Option Str
realpath path = some (b'/' ∷ (b'd' ∷ []))

-- "d/"
abbrev given : Str
given = b'd' ∷ (b'/' ∷ [])

given_prepared :
    prepare_paths realpath plenty (given ∷ [])
    ≡ done ((b'd' ∷ [], some (b'/' ∷ (b'd' ∷ (b'/' ∷ [])))) ∷ [])
unfolding program
given_prepared = refl

absolute : (p base : Str) → realpath p ≡ some base → get_or base 0 0 ≡ b'/'
absolute p base e = ground arith

prepare_paths-HasSlash_example :
    (prepare_paths realpath plenty (given ∷ [])
      ≡ done (map (λ p. (kill_slash p, base_of realpath (kill_slash p))) (given ∷ [])))
    × All
        (HasSlash realpath)
        (map (λ p. (kill_slash p, base_of realpath (kill_slash p))) (given ∷ []))
prepare_paths-HasSlash_example =
    prepare_paths-HasSlash realpath plenty given [] (λ n. refl) absolute
