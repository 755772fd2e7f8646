-- ===== src/Ignore/Filter/Spec.antt =====
-- The filter without binary search: what it answers, and that it always answers.
use libag.Common.{
  ◌-◌, ◌<◌, ◌≡◌, ◌≢◌, refl, inl, inr, Bool, false, not, ◌&&◌, ◌||◌, Option, none, some, List, [],
  ◌∷◌, ◌++◌, All, length, get_or, get_elem?-eq-get_or, ◌==◌, done, Bool-cases, Option-cases, arith,
}
use libag.Cstr.{Str, has_prefix}
use libag.Util.Entry.{Dirent, is_directory}
use libag.Ignore.Defs.{Ignores, Chain}
use libag.Ignore.Pattern.{extensions, names, slash_names}
use libag.Ignore.Pattern.Effect.{IsValid}
use libag.Ignore.Search.{
  any_pattern, name_in_path, undotted, below_node, ignored_below, ignored_by_regex,
  path_ignore_search,
}
use libag.Ignore.Search.Lookup.{contains, found-contains}
use libag.Ignore.Filter.{
  FilterOptions, extension, early_verdict, undotted_name, ends_in_slash, ignored_by_extension,
  ignored_as_directory, ignored_by_node, ignored_by_chain, filename_filter,
}

unfoldable pub extension_in : Option Str → List Str → Bool
extension_in none patterns = false
extension_in (some ext) patterns = contains ext patterns

-- The last byte is a slash.
unfoldable pub slash_last : Str → Bool
slash_last name = get_or name (length name - 1) 0 == b'/'

length_pos : (name : Str) → name ≢ [] → 0 < length name
length_pos [] h = absurd (h refl)
length_pos (c ∷ name) h = omega arith

pub ends_in_slash-slash_last :
    (name : Str) → name ≢ [] → ends_in_slash name ≡ done (slash_last name)
unfolding ends_in_slash slash_last
ends_in_slash-slash_last name named =
    rw
      (
        get_elem?-eq-get_or name (length name - 1) 0 (omega (arith, length_pos name named)),
        ends_in_slash,
      )
      refl

pub undotted_name-ne : (name : Str) → name ≢ [] → undotted_name name ≢ []
unfolding undotted_name has_prefix
undotted_name-ne [] h e = h refl
undotted_name-ne (c ∷ []) h e = ground arith
undotted_name-ne (c ∷ (x ∷ name)) h e = ground arith

ignored_by_extension-extension_in :
    (fnmatch : Str → Str → Bool) (ackmate : Str → Bool) (path_start : Str) (d : Dirent)
    (filename : Str) (ext : Option Str) (ig : Ignores)
    → IsValid ig
    → ignored_by_extension fnmatch ackmate path_start d filename ext ig
      ≡ done (extension_in ext ig.extensions)
unfolding ignored_by_extension extension_in
ignored_by_extension-extension_in fnmatch ackmate path_start d filename none ig v = refl
ignored_by_extension-extension_in fnmatch ackmate path_start d filename (some ext) ig v =
    found-contains ext ig.extensions (v extensions)

module _ (fnmatch : Str → Str → Bool) (ackmate : Str → Bool) where
  -- A node ignores a file: by its name, by its path below the node, or by a regular pattern.
  unfoldable pub path_ignored : Ignores → Str → Str → Bool
  path_ignored ig path filename =
      let temp = undotted path ++ (b'/' ∷ filename) in
      let rest = below_node ig temp in
      contains filename ig.names
      || (has_prefix temp ig.abs_path
            && (contains rest ig.names
                || (contains rest ig.slash_names
                    || (any_pattern (name_in_path rest) ig.names
                        || any_pattern (λ p. fnmatch p rest) ig.slash_regexes)))
          || ignored_by_regex fnmatch ackmate ig temp filename)

  pub path_ignore_search-path_ignored :
      (ig : Ignores) (path filename : Str)
      → IsValid ig
      → path_ignore_search fnmatch ackmate ig path filename ≡ done (path_ignored ig path filename)
  unfolding path_ignore_search ignored_below path_ignored
  path_ignore_search-path_ignored ig path filename v = ground (
    arith,
    found-contains filename ig.names (v names),
    found-contains (below_node ig (undotted path ++ (b'/' ∷ filename))) ig.names (v names),
    found-contains (below_node ig (undotted path ++ (b'/' ∷ filename))) ig.slash_names
        (v slash_names),
  )

  module _ (path_start : Str) (d : Dirent) (filename : Str) where
    unfoldable pub node_ignores : Option Str → Ignores → Bool
    node_ignores ext ig =
        extension_in ext ig.extensions
        || (path_ignored ig path_start filename
            || (is_directory d
                && (not (slash_last filename)
                    && path_ignored ig path_start (filename ++ (b'/' ∷ [])))))

    ignored_by_node-node_ignores :
        (ext : Option Str) (ig : Ignores)
        → IsValid ig
        → filename ≢ []
        → ignored_by_node fnmatch ackmate path_start d filename ext ig ≡ done (node_ignores ext ig)
    unfolding ignored_by_node ignored_as_directory node_ignores
    ignored_by_node-node_ignores ext ig v named = ground (
      arith,
      ignored_by_extension-extension_in fnmatch ackmate path_start d filename ext ig v,
      path_ignore_search-path_ignored ig path_start filename v,
      path_ignore_search-path_ignored ig path_start (filename ++ (b'/' ∷ [])) v,
      ends_in_slash-slash_last filename named,
    )

    unfoldable pub chain_ignores : Option Str → Chain → Bool
    chain_ignores ext [] = false
    chain_ignores ext (ig ∷ parents) = node_ignores ext ig || chain_ignores ext parents

    ignored_by_chain-chain_ignores :
        (ext : Option Str) (chain : Chain)
        → All IsValid chain
        → filename ≢ []
        → ignored_by_chain fnmatch ackmate path_start d filename ext chain
          ≡ done (chain_ignores ext chain)
    unfolding ignored_by_chain chain_ignores
    ignored_by_chain-chain_ignores ext [] v named = refl
    ignored_by_chain-chain_ignores ext (ig ∷ parents) v named =
        rw (ignored_by_node-node_ignores ext ig v.0 named)
          (elim (Bool-cases (node_ignores ext ig)) [
            | inl hit ↦ rw hit refl
            | inr miss ↦ rw miss (ignored_by_chain-chain_ignores ext parents v.1 named)
          ])

  -- What the filter owes: the early answer, or whether no node up the chain ignores the entry.
  unfoldable pub accepts : FilterOptions → Str → Chain → Dirent → Bool
  accepts opts path_start chain d = elim (early_verdict opts d) as (λ _. Bool) [
    | some answer ↦ answer
    | none ↦ not (chain_ignores path_start d (undotted_name d.d_name) (extension d.d_name) chain)
  ]

  -- On a chain of sorted nodes and a name that is not empty the filter always answers, without a
  -- read out of bounds, and as the search one by one through the patterns does.
  pub filename_filter-accepts :
      (opts : FilterOptions) (path_start : Str) (chain : Chain) (d : Dirent)
      → All IsValid chain
      → d.d_name ≢ []
      → filename_filter fnmatch ackmate opts path_start chain d
        ≡ done (accepts opts path_start chain d)
  unfolding filename_filter accepts
  filename_filter-accepts opts path_start chain d v named =
      elim (Option-cases (early_verdict opts d)) [
        | inl late ↦
            rw (late, filename_filter, accepts)
              (rw
                (ignored_by_chain-chain_ignores path_start d (undotted_name d.d_name)
                  (extension d.d_name) chain v (undotted_name-ne d.d_name named))
                refl)
        | inr (answer, early) ↦ rw (early, filename_filter, accepts) refl
      ]
