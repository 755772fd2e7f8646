-- ===== src/Ignore/Filter/Total.antt =====
-- The filter answers for every entry with a name, whatever the order of the patterns.
use native.Mathlib.Nat.{le_refl}
use libag.Common.{
  suc, ◌≢◌, inl, inr, Bool, true, false, Option, none, some, List, [], ◌∷◌, ◌++◌, length, Run, done,
  Returns, Returns->>=, ◌>>=◌, Option-cases, arith, if◌then◌else◌,
}
use libag.Cstr.{Str, has_prefix}
use libag.Util.Entry.{Dirent, is_directory}
use libag.Util.BinarySearch.{binary_search}
use libag.Util.BinarySearch.Total.{binary_search-Returns}
use libag.Ignore.Defs.{Ignores, Chain}
use libag.Ignore.Search.{found, below_node, undotted, ignored_below, path_ignore_search}
use libag.Ignore.Filter.{
  FilterOptions, extension, early_verdict, undotted_name, ignored_by_extension,
  ignored_as_directory, ignored_by_node, ignored_by_chain, filename_filter,
}
use libag.Ignore.Filter.Spec.{ends_in_slash-slash_last, slash_last, undotted_name-ne}

-- A test that answers.
abbrev pub Answers : Run Bool → Type 0
Answers r = Returns (λ (b : Bool). Unit {0}) r

Answers-if : (c : Bool) (a b : Run Bool) → Answers a → Answers b → Answers (if c then a else b)
Answers-if true a b ha hb = ha
Answers-if false a b ha hb = hb

Answers->>= {ℓ} :
    {A : Type ℓ} (m : Run A) (f : A → Run Bool)
    → Returns (λ (a : A). Unit {0}) m
    → ((a : A) → Answers (f a))
    → Answers (m >>= f)
Answers->>= m f h next = Returns->>= (λ a. Unit {0}) (λ b. Unit {0}) m f h (λ a _. next a)

found-Answers : (needle : Str) (hay : List Str) → Answers (found needle hay)
unfolding found
found-Answers needle hay =
    Answers->>= (binary_search (suc (length hay)) needle hay 0 (length hay)) _
      (binary_search-Returns needle hay (suc (length hay)) 0 (length hay) (omega arith)
        (le_refl (length hay)) (omega arith))
      (λ r. tt)

module _ (fnmatch : Str → Str → Bool) (ackmate : Str → Bool) where
  ignored_below-Answers :
      (ig : Ignores) (rest : Str) → Answers (ignored_below fnmatch ackmate ig rest)
  unfolding ignored_below
  ignored_below-Answers ig rest =
      Answers->>= (found rest ig.names) _ (found-Answers rest ig.names) (λ hit.
        Answers-if hit _ _ tt (
          Answers->>= (found rest ig.slash_names) _ (found-Answers rest ig.slash_names)
            (λ hit'. tt)))

  path_ignore_search-Answers :
      (ig : Ignores) (path filename : Str)
      → Answers (path_ignore_search fnmatch ackmate ig path filename)
  unfolding path_ignore_search
  path_ignore_search-Answers ig path filename =
      Answers->>= (found filename ig.names) _ (found-Answers filename ig.names) (λ hit.
        Answers-if hit _ _ tt (
          Answers-if (has_prefix (undotted path ++ (b'/' ∷ filename)) ig.abs_path) _ _
            (Answers->>=
              (ignored_below fnmatch ackmate ig
                (below_node ig (undotted path ++ (b'/' ∷ filename))))
              _ (ignored_below-Answers ig (below_node ig (undotted path ++ (b'/' ∷ filename))))
              (λ hit'. Answers-if hit' _ _ tt tt))
            tt))

  module _ (path_start : Str) (d : Dirent) (filename : Str) (named : filename ≢ []) where
    directory-Answers :
        (ig : Ignores) → Answers (ignored_as_directory fnmatch ackmate path_start d filename ig)
    unfolding ignored_as_directory
    directory-Answers ig =
        Answers-if (is_directory d) _ _
          (rw (ends_in_slash-slash_last filename named) (
            Answers-if (slash_last filename) (done false)
              (path_ignore_search fnmatch ackmate ig path_start (filename ++ (b'/' ∷ []))) tt
              (path_ignore_search-Answers ig path_start (filename ++ (b'/' ∷ [])))))
          tt

    extension-Answers :
        (ext : Option Str) (ig : Ignores)
        → Answers (ignored_by_extension fnmatch ackmate path_start d filename ext ig)
    unfolding ignored_by_extension
    extension-Answers none ig = tt
    extension-Answers (some ext) ig = found-Answers ext ig.extensions

    node-Answers :
        (ext : Option Str) (ig : Ignores)
        → Answers (ignored_by_node fnmatch ackmate path_start d filename ext ig)
    unfolding ignored_by_node
    node-Answers ext ig =
        Answers->>= (ignored_by_extension fnmatch ackmate path_start d filename ext ig) _
          (extension-Answers ext ig)
          (λ hit. Answers-if hit _ _ tt (
            Answers->>= (path_ignore_search fnmatch ackmate ig path_start filename) _
              (path_ignore_search-Answers ig path_start filename)
              (λ hit'. Answers-if hit' _ _ tt (directory-Answers ig))))

    chain-Answers :
        (ext : Option Str) (chain : Chain)
        → Answers (ignored_by_chain fnmatch ackmate path_start d filename ext chain)
    unfolding ignored_by_chain
    chain-Answers ext [] = tt
    chain-Answers ext (ig ∷ parents) =
        Answers->>= (ignored_by_node fnmatch ackmate path_start d filename ext ig) _
          (node-Answers ext ig)
          (λ hit.
            Answers-if hit (done true)
              (ignored_by_chain fnmatch ackmate path_start d filename ext parents) tt
              (chain-Answers ext parents))

  -- The filter answers for every entry whose name is not empty.
  pub filename_filter-Answers :
      (opts : FilterOptions) (path_start : Str) (chain : Chain) (d : Dirent)
      → d.d_name ≢ []
      → Answers (filename_filter fnmatch ackmate opts path_start chain d)
  unfolding filename_filter
  filename_filter-Answers opts path_start chain d named =
      elim (Option-cases (early_verdict opts d)) [
        | inl late ↦
            rw (late, filename_filter)
              (Answers->>=
                (ignored_by_chain fnmatch ackmate path_start d (undotted_name d.d_name)
                  (extension d.d_name) chain)
                _
                (chain-Answers path_start d (undotted_name d.d_name)
                  (undotted_name-ne d.d_name named) (extension d.d_name) chain)
                (λ hit. tt))
        | inr (answer, early) ↦ rw (early, filename_filter) tt
      ]
