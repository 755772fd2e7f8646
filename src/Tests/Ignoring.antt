-- ===== src/Tests/Ignoring.antt =====
-- Nodes of patterns, and the filter of directory entries.
use mathlib.Core.List.{Perm}
use libag.Common.{◌≡◌, ◌≢◌, refl, Bool, true, false, some, [], ◌∷◌, ◌++◌, done, arith}
use libag.Cstr.{Str, strcmp, has_prefix, has_char, has_any, strstr, str_eq, isspace}
use libag.Util.Chars.{is_fnmatch}
use libag.Util.Entry.{Dirent, reg, is_directory, is_symlink, is_named_pipe}
use libag.Util.BinarySearch.{binary_search}
use libag.Util.BinarySearch.Sorted.{IsSorted}
use libag.Ignore.Defs.{Ignores, init_ignore, is_empty, nearest_parent, own_path, init_abs_path}
use libag.Ignore.Pattern.{
  extensions, names, slash_names, regexes, invert_regexes, slash_regexes, add_ignore_pattern,
  insert_pattern, make_room, strip_dot, trim_len, classify, store_pattern, bucket,
}
use libag.Ignore.Pattern.Effect.{
  IsValid, IsTrimmed, addition, add_ignore_pattern-IsValid, add_ignore_pattern-addition,
}
use libag.Ignore.Search.{
  found, name_in_path, any_pattern, undotted, below_node, path_ignore_search, ignored_below,
  ignored_by_regex,
}
use libag.Ignore.Filter.{
  FilterOptions, filename_filter, from_dot, extension, early_verdict, undotted_name, ends_in_slash,
  ignored_by_extension, ignored_as_directory, ignored_by_node, ignored_by_chain,
}
use libag.Ignore.Filter.Spec.{accepts, filename_filter-accepts}

program : Unit {0}
unfolding init_ignore is_empty nearest_parent own_path init_abs_path add_ignore_pattern
    insert_pattern make_room strip_dot trim_len classify store_pattern strcmp has_prefix has_char
    has_any strstr str_eq isspace is_fnmatch binary_search found name_in_path any_pattern undotted
    below_node path_ignore_search ignored_below ignored_by_regex filename_filter from_dot extension
    early_verdict undotted_name ends_in_slash ignored_by_extension ignored_as_directory
    ignored_by_node ignored_by_chain is_directory is_symlink is_named_pipe
program = tt

abbrev root : Ignores
root = record {
  extensions = [];
  names = [];
  slash_names = [];
  regexes = [];
  invert_regexes = [];
  slash_regexes = [];
  dirname = [];
  abs_path = [];
}

abbrev double_extension : Str
double_extension = b'a' ∷ (b'.' ∷ (b'o' ∷ []))

-- "*.a.o"
abbrev objects : Str
objects = b'*' ∷ (b'.' ∷ double_extension)

-- A node with one extension, "a.o".
abbrev node : Ignores
node = record root { extensions = double_extension ∷ [] }

objects_added : add_ignore_pattern root objects ≡ node
unfolding program
objects_added = refl

one-IsSorted : (x : Str) → IsSorted (x ∷ [])
one-IsSorted x = (tt, tt)

node-IsValid : IsValid node
node-IsValid extensions = one-IsSorted double_extension
node-IsValid names = tt
node-IsValid slash_names = tt
node-IsValid regexes = tt
node-IsValid invert_regexes = tt
node-IsValid slash_regexes = tt

objects-IsTrimmed : IsTrimmed objects
unfolding program
objects-IsTrimmed = refl

add_ignore_pattern-IsValid_example : IsValid (add_ignore_pattern node objects)
add_ignore_pattern-IsValid_example =
    add_ignore_pattern-IsValid node objects objects-IsTrimmed node-IsValid

add_ignore_pattern-addition_example :
    Perm
      (bucket extensions (add_ignore_pattern node objects))
      (addition objects extensions ++ bucket extensions node)
add_ignore_pattern-addition_example = add_ignore_pattern-addition node objects extensions

abbrev opts : FilterOptions
opts = record {
  search_hidden_files = false;
  follow_symlinks = false;
  search_all_files = false;
  path_to_ignore = false;
}

abbrev fnmatch_none : Str → Str → Bool
fnmatch_none pattern name = false

abbrev no_option : Str → Bool
no_option path = false

-- "x.a.o"
abbrev object_file : Dirent
object_file = record {
  d_name = b'x' ∷ (b'.' ∷ double_extension);
  d_type = reg;
  stat = some reg;
  lstat = some reg;
}

-- "x.c"
abbrev source_file : Dirent
source_file = record object_file { d_name = b'x' ∷ (b'.' ∷ (b'c' ∷ [])) }

object_file_skipped :
    filename_filter fnmatch_none no_option opts (b'.' ∷ []) (node ∷ []) object_file ≡ done false
unfolding program
object_file_skipped = refl

source_file_searched :
    filename_filter fnmatch_none no_option opts (b'.' ∷ []) (node ∷ []) source_file ≡ done true
unfolding program
source_file_searched = refl

object_file_named : object_file.d_name ≢ []
object_file_named e = ground arith

filename_filter-accepts_example :
    filename_filter fnmatch_none no_option opts (b'.' ∷ []) (node ∷ []) object_file
    ≡ done (accepts fnmatch_none no_option opts (b'.' ∷ []) (node ∷ []) object_file)
filename_filter-accepts_example =
    filename_filter-accepts fnmatch_none no_option opts (b'.' ∷ []) (node ∷ []) object_file
      (node-IsValid, tt) object_file_named
