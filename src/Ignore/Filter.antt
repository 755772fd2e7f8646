-- ===== src/Ignore/Filter.antt =====
-- `filename_filter` of ag_src/ignore.c: which directory entries a search looks at.
pub mod Spec
pub mod Total
use libag.Common.{
  ℕ, ◌-◌, Bool, true, false, not, ◌&&◌, ◌||◌, Option, none, some, List, [], ◌∷◌, ◌++◌, length,
  get_or, get_elem?, drop, ◌==◌, if◌then◌else◌, Run, done, fault, ◌>>=◌,
}
use libag.Cstr.{Str, has_prefix, str_eq}
use libag.Util.Entry.{Dirent, is_directory, is_symlink, is_named_pipe}
use libag.Ignore.Defs.{Ignores, Chain}
use libag.Ignore.Search.{found, path_ignore_search}

-- The fields of `cli_options` that the filter reads.
pub record FilterOptions : Type 0 where
  pub search_hidden_files : Bool
  pub follow_symlinks : Bool
  pub search_all_files : Bool
  pub path_to_ignore : Bool

-- `strchr(filename, '.')`
unfoldable pub from_dot : Str → Option Str
from_dot [] = none
from_dot (c ∷ s) = if c == b'.' then some (c ∷ s) else from_dot s

-- What stands behind the first dot, if anything does.
unfoldable pub extension : Str → Option Str
extension filename = elim (from_dot filename) as (λ _. Option Str) [
  | some (dot ∷ (c ∷ rest)) ↦ some (c ∷ rest)
  | _ ↦ none
]

-- The tests before the patterns; `some` is the answer.
unfoldable pub early_verdict : FilterOptions → Dirent → Option Bool
early_verdict opts d =
    if not opts.search_hidden_files && get_or d.d_name 0 0 == b'.'
    then some false
    else if str_eq d.d_name (b'.' ∷ []) || str_eq d.d_name (b'.' ∷ (b'.' ∷ []))
    then some false
    else if not opts.follow_symlinks && is_symlink d
    then some false
    else if is_named_pipe d
    then some false
    else if opts.search_all_files && not opts.path_to_ignore
    then some true
    else none

unfoldable pub undotted_name : Str → Str
undotted_name name = if has_prefix name (b'.' ∷ (b'/' ∷ [])) then drop 1 name else name

-- `filename[filename_len - 1] != '/'`; an empty name is read in front of its start.
unfoldable pub ends_in_slash : Str → Run Bool
ends_in_slash name = elim (get_elem? name (length name - 1)) as (λ _. Run Bool) [
  | some c ↦ done (c == b'/')
  | none ↦ fault
]

module _ (fnmatch : Str → Str → Bool) (ackmate_dir_match : Str → Bool) where
  module _ (path_start : Str) (d : Dirent) (filename : Str) where
    unfoldable pub ignored_by_extension : Option Str → Ignores → Run Bool
    ignored_by_extension none ig = done false
    ignored_by_extension (some ext) ig = found ext ig.extensions

    -- The second search for a directory, by its name with a slash behind.
    unfoldable pub ignored_as_directory : Ignores → Run Bool
    ignored_as_directory ig =
        let slashed =
          path_ignore_search fnmatch ackmate_dir_match ig path_start (filename ++ (b'/' ∷ [])) in
        let check : Run Bool =
          ends_in_slash filename >>= λ slash. if slash then done false else slashed in
        if is_directory d then check else done false

    -- One round of the loop over the parents: whether this node ignores the entry.
    unfoldable pub ignored_by_node : Option Str → Ignores → Run Bool
    ignored_by_node ext ig = ignored_by_extension ext ig >>= λ by_extension.
        if by_extension
        then done true
        else path_ignore_search fnmatch ackmate_dir_match ig path_start filename >>= λ by_path.
            if by_path then done true else ignored_as_directory ig

    unfoldable pub ignored_by_chain : Option Str → Chain → Run Bool
    ignored_by_chain ext [] = done false
    ignored_by_chain ext (ig ∷ parents) =
        ignored_by_node ext ig >>= λ hit. if hit then done true else ignored_by_chain ext parents

  unfoldable pub filename_filter : FilterOptions → Str → Chain → Dirent → Run Bool
  filename_filter opts path_start chain d = elim (early_verdict opts d) as (λ _. Run Bool) [
    | some answer ↦ done answer
    | none ↦
        ignored_by_chain path_start d (undotted_name d.d_name) (extension d.d_name) chain >>= λ hit.
        done (not hit)
  ]
