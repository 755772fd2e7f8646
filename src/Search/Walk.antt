-- ===== src/Search/Walk.antt =====
-- `search_dir` of ag_src/search.c: the walk over a directory and what lies below it.
pub mod Course
use libag.Common.{
  ℕ, zero, suc, ◌+◌, Bool, true, false, not, ◌&&◌, ◌||◌, Option, none, some, List, [], ◌∷◌, ◌++◌,
  ltb, ◌==◌, if◌then◌else◌, Run, done, looping, ◌>>=◌,
}
use libag.Common.Int.{ℤ, pos, negsuc}
use libag.Cstr.{Str}
use libag.Util.Entry.{Dirent, is_directory, is_symlink}
use libag.Ignore.Defs.{Ignores, Chain, init_ignore}
use libag.Ignore.Load.{load_ignore_patterns, ignore_pattern_files}
use libag.Ignore.Filter.{FilterOptions, filename_filter}
use libag.Libag.Results.{Memory}
use libag.Libag.WorkQueue.{Found, queued, own_file}
use libag.Search.Symloop.{DirKey, symloop_loop, check_symloop_enter, check_symloop_leave}
use libag.Search.Scandir.{ag_scandir}

-- What `opendir` and `readdir` give for a path.
pub data Listing : Type 0 where
  entries : List Dirent → Listing
  not_a_directory unreadable : Listing

-- The calls of the system: `stat` for the key of a directory, `lstat` for the device of an entry, the
-- directories, and the lines of a file.
pub record FileSystem : Type 0 where
  pub key : Str → Option DirKey
  pub device : Str → Option ℕ
  pub open_dir : Str → Listing
  pub read_file : Str → Option (List (List ℕ))

-- The options that the walk reads. `file_search_regex` is not set in the library.
pub record WalkOptions : Type 0 where
  pub filter : FilterOptions
  pub one_dev : Bool
  pub recurse_dirs : Bool
  pub skip_vcs_ignores : Bool
  pub max_search_depth : ℤ

-- What the walk changes: the directories that it is in, and the files that it has come to.
pub record Walk : Type 0 where
  pub symhash : List DirKey
  pub found : List Found

abbrev pub under : Str → Str → Str
under path name = path ++ (b'/' ∷ name)

-- "the part of path that isn't in base_path"
unfoldable pub path_start : Str → Str → Str
path_start (b ∷ base) (p ∷ path) = if b == p then path_start base path else p ∷ path
path_start _ path = path

-- `depth < opts.max_search_depth || opts.max_search_depth == -1`
unfoldable pub deeper : ℤ → ℕ → Bool
deeper (pos max) depth = ltb depth max
deeper (negsuc n) depth = n == 0

abbrev add_found : Found → Walk → Walk
add_found f w = record w { found = w.found ++ (f ∷ []) }

module _ (fs : FileSystem) (fnmatch : Str → Str → Bool) (ackmate_dir_match : Str → Bool)
    (memory : Memory) (opts : WalkOptions) where
  -- The patterns of a directory, into its node.
  unfoldable pub load_files : List Str → Str → Ignores → Ignores
  load_files [] path ig = ig
  load_files (name ∷ rest) path ig =
      load_files rest path (load_ignore_patterns (fs.read_file (under path name)) ig)

  unfoldable pub load_patterns : Str → Chain → Chain
  load_patterns path [] = []
  load_patterns path (ig ∷ parents) =
      load_files (ignore_pattern_files opts.skip_vcs_ignores) path ig ∷ parents

  -- Whether an entry is on another device, or its device is not known.
  unfoldable pub on_other_device : Str → ℕ → Bool
  on_other_device path original_dev = elim (fs.device path) as (λ _. Bool) [
    | none ↦ true
    | some dev ↦ not (dev == original_dev)
  ]

  -- One round of the loop over the entries. `next` is the search of a directory below.
  unfoldable pub visit :
      (Chain → Str → ℕ → Walk → Run Walk) → Chain → Str → ℕ → ℕ → Dirent → Walk → Run Walk
  visit next chain path depth original_dev d w =
      let full = under path d.d_name in
      let below : Run Walk = next (init_ignore chain d.d_name) full (depth + 1) w in
      if opts.one_dev && on_other_device full original_dev
      then done w
      else if not opts.filter.follow_symlinks && is_symlink d
      then done w
      else if not (is_directory d)
      then done (add_found (queued full) w)
      else if opts.recurse_dirs && deeper opts.max_search_depth depth
      then below
      else done w

  unfoldable pub visit_all :
      (Chain → Str → ℕ → Walk → Run Walk) → Chain → Str → ℕ → ℕ → List Dirent → Walk → Run Walk
  visit_all next chain path depth original_dev [] w = done w
  visit_all next chain path depth original_dev (d ∷ ds) w =
      visit next chain path depth original_dev d w
      >>= visit_all next chain path depth original_dev ds

  -- From the loading of the patterns to the cleanup.
  unfoldable pub search_entries :
      (Chain → Str → ℕ → Walk → Run Walk) → Chain → Str → Str → ℕ → ℕ → Walk → Run Walk
  search_entries next chain base_path path depth original_dev w =
      let loaded = load_patterns path chain in
      elim (fs.open_dir path) as (λ _. Run Walk) [
        | not_a_directory ↦ done (add_found (own_file path) w)
        | unreadable ↦ done w
        | entries es ↦
            ag_scandir
              (filename_filter fnmatch ackmate_dir_match opts.filter (path_start base_path path)
                loaded)
              memory es
            >>= λ r. elim r as (λ _. Run Walk) [
              | none ↦ done w
              | some ds ↦ visit_all next loaded path depth original_dev ds w
            ]
      ]

  -- `base_path` is empty where it is NULL.
  unfoldable pub search_dir : ℕ → Str → ℕ → Chain → Str → ℕ → Walk → Run Walk
  search_dir zero base_path original_dev chain path depth w = looping
  search_dir (suc fuel) base_path original_dev chain path depth w =
      let (symres, current_dirkey, symhash) = check_symloop_enter (fs.key path) w.symhash in
      let searched : Run Walk =
        search_entries (search_dir fuel base_path original_dev) chain base_path path depth
          original_dev (record w { symhash = symhash })
        >>= λ w'.
            done (record w' { symhash = (check_symloop_leave current_dirkey w'.symhash).1 }) in
      elim symres as (λ _. Run Walk) [
        | symloop_loop ↦ done (record w { symhash = symhash })
        | _ ↦ searched
      ]
