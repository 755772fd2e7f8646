-- ===== src/Ignore/Defs.antt =====
-- `struct ignores` of ag_src/ignore.h, and `init_ignore` and `is_empty` of ag_src/ignore.c.
use libag.Common.{◌+◌, Bool, List, [], ◌∷◌, ◌++◌, length, ltb, ◌==◌, if◌then◌else◌}
use libag.Cstr.{Str}

-- An array and its length are a list. The field `parent` is left to `Chain`.
pub record Ignores : Type 0 where
  pub extensions : List Str
  pub names : List Str
  pub slash_names : List Str
  pub regexes : List Str
  pub invert_regexes : List Str
  pub slash_regexes : List Str
  pub dirname : Str
  pub abs_path : Str

-- A node with its ancestors, the nearest first: what a walk along `parent` meets. A parent is not
-- changed any more when it gets a child, so sharing it is not observable.
abbrev pub Chain : Type 0
Chain = List Ignores

unfoldable pub is_empty : Ignores → Bool
is_empty ig =
    (length ig.extensions
      + length ig.names
      + length ig.slash_names
      + length ig.regexes
      + length ig.slash_regexes)
    == 0

-- The `parent` that a new node gets: an empty one that has a parent itself is passed over.
unfoldable pub nearest_parent : Chain → Chain
nearest_parent (p ∷ (q ∷ rest)) = if is_empty p then q ∷ rest else p ∷ (q ∷ rest)
nearest_parent chain = chain

-- "." stands for the empty path.
unfoldable pub own_path : Str → Str
own_path (c ∷ []) = if c == b'.' then [] else c ∷ []
own_path name = name

unfoldable pub init_abs_path : Chain → Str → Str
unfolding own_path
init_abs_path [] name = own_path name
init_abs_path (p ∷ rest) name =
    if ltb 0 (length p.abs_path) then p.abs_path ++ (b'/' ∷ name) else own_path name

unfoldable pub init_ignore : Chain → Str → Chain
unfolding is_empty nearest_parent init_abs_path
init_ignore chain name =
    record {
      extensions = [];
      names = [];
      slash_names = [];
      regexes = [];
      invert_regexes = [];
      slash_regexes = [];
      dirname = name;
      abs_path = init_abs_path chain name;
    }
    ∷ nearest_parent chain
