-- ===== src/Search/Walk/Course.antt =====
-- The walk ends within its depth, and leaves every directory that it has entered.
use libag.Common.{
  ◌⊎◌, inl, inr, ℕ, zero, suc, ◌+◌, ◌<◌, ◌≤◌, ◌≡◌, ◌≢◌, refl, sym, ap, ◌∙◌, Bool, true, false, not,
  ◌&&◌, none, some, List, [], ◌∷◌, ◌++◌, append-nil, append_assoc, All, All-append, All-map, Run,
  done, Returns, Returns->>=, Returns-map, arith, if◌then◌else◌, ◌>>=◌,
}
use libag.Common.Int.{pos}
use libag.Cstr.{Str}
use libag.Util.Entry.{Dirent, is_directory, is_symlink}
use libag.Ignore.Defs.{Chain, init_ignore}
use libag.Ignore.Filter.{filename_filter}
use libag.Ignore.Filter.Total.{filename_filter-Answers}
use libag.Libag.Results.{Memory}
use libag.Libag.WorkQueue.{Found, queued, own_file}
use libag.Search.Symloop.{
  SymloopResult, symloop_error, symloop_ok, symloop_loop, check_symloop_enter, check_symloop_leave,
  leave-enter, enter_loop,
}
use libag.Search.Scandir.{ag_scandir, ag_scandir-Returns}
use libag.Search.Walk.{
  Listing, entries, not_a_directory, unreadable, FileSystem, WalkOptions, Walk, under, path_start,
  deeper, load_patterns, on_other_device, visit, visit_all, search_entries, search_dir,
}

-- What the system promises: no directory has device and inode 0, and every entry has a name.
pub record Sound (fs : FileSystem) : Type 0 where
  pub real_keys : (path : Str) → fs.key path ≢ some (0, 0)
  pub named :
      (path : Str) (es : List Dirent)
      → fs.open_dir path ≡ entries es
      → All (λ (d : Dirent). d.d_name ≢ []) es

abbrev found_path : Found → Str
found_path (queued path) = path
found_path (own_file path) = path

-- A file at a path, or below it: behind the path comes nothing, or a slash and more.
abbrev pub IsBelow : Str → Found → Type 0
IsBelow path f = (found_path f ≡ path) ⊎ ((rest : Str) × (found_path f ≡ path ++ (b'/' ∷ rest)))

-- The walk is in the same directories as before, and has come to more files, at or below a path.
abbrev pub Grows : Str → Walk → Walk → Type 0
Grows path w w' =
    (w'.symhash ≡ w.symhash)
    × (more : List Found) × (w'.found ≡ w.found ++ more)
    × All (IsBelow path) more

Grows-refl : (path : Str) (w : Walk) → Grows path w w
Grows-refl path w = (refl, [], sym (append-nil w.found), tt)

Grows-trans : (path : Str) (u v w : Walk) → Grows path u v → Grows path v w → Grows path u w
Grows-trans path u v w (a, xs, e, h) (b, ys, f, k) = (
  b ∙ a,
  xs ++ ys,
  f ∙ ap (λ l. l ++ ys) e ∙ append_assoc u.found xs ys,
  All-append (IsBelow path) xs ys h k,
)

-- What lies below a directory of a path lies below the path.
Grows-under : (path name : Str) (u v : Walk) → Grows (under path name) u v → Grows path u v
Grows-under path name u v (a, xs, e, h) =
    (a, xs, e, All-map (IsBelow (under path name)) (IsBelow path) xs (λ f below. further f below) h)
  where
    further : (f : Found) → IsBelow (under path name) f → IsBelow path f
    further f (inl at) = inr (name, at)
    further f (inr (rest, g)) =
        inr (name ++ (b'/' ∷ rest), g ∙ append_assoc path (b'/' ∷ name) (b'/' ∷ rest))

module _ (fs : FileSystem) (fnmatch : Str → Str → Bool) (ackmate : Str → Bool) (memory : Memory)
    (opts : WalkOptions) (sound : Sound fs) (max : ℕ)
    (limit : opts.max_search_depth ≡ pos max) where
  -- What the search of a directory owes below a depth.
  abbrev Descends : (Chain → Str → ℕ → Walk → Run Walk) → ℕ → Type 0
  Descends next depth =
      (chain : Chain) (path : Str) (w : Walk)
      → depth < max
      → Returns (Grows path w) (next chain path (depth + 1) w)

  visit-Grows :
      (next : Chain → Str → ℕ → Walk → Run Walk) (chain : Chain) (path : Str) (depth dev : ℕ)
      (d : Dirent) (w : Walk)
      → Descends next depth
      → Returns (Grows path w) (visit fs fnmatch ackmate memory opts next chain path depth dev d w)
  unfolding visit deeper
  visit-Grows next chain path depth dev d w descends =
      returns_if
        (opts.one_dev && on_other_device fs fnmatch ackmate memory opts (under path d.d_name) dev) _
        _ (λ _. Grows-refl path w)
        (λ _.
          returns_if (not opts.filter.follow_symlinks && is_symlink d) _ _ (λ _. Grows-refl path w)
            (λ _.
              returns_if (not (is_directory d)) _ _
                (λ _. (refl, queued (under path d.d_name) ∷ [], refl, (inr (d.d_name, refl), tt)))
                (λ _.
                  returns_if (opts.recurse_dirs && deeper opts.max_search_depth depth) _ _
                    (λ below.
                      Returns-map (Grows (under path d.d_name) w) (Grows path w) _
                        (λ v g. Grows-under path d.d_name w v g)
                        (descends (init_ignore chain d.d_name) (under path d.d_name) w
                          (depth_left below)))
                    (λ _. Grows-refl path w))))
    where
      returns_if :
          (c : Bool) (a b : Run Walk)
          → (c ≡ true → Returns (Grows path w) a)
          → (c ≡ false → Returns (Grows path w) b)
          → Returns (Grows path w) (if c then a else b)
      returns_if true a b ha hb = ha refl
      returns_if false a b ha hb = hb refl

      depth_left : (opts.recurse_dirs && deeper opts.max_search_depth depth) ≡ true → depth < max
      depth_left h = ground (arith, limit)

  visit_all-Grows :
      (next : Chain → Str → ℕ → Walk → Run Walk) (chain : Chain) (path : Str) (depth dev : ℕ)
      (ds : List Dirent) (w : Walk)
      → Descends next depth
      → Returns
          (Grows path w)
          (visit_all fs fnmatch ackmate memory opts next chain path depth dev ds w)
  unfolding visit_all
  visit_all-Grows next chain path depth dev [] w descends = Grows-refl path w
  visit_all-Grows next chain path depth dev (d ∷ ds) w descends =
      Returns->>= (Grows path w) (Grows path w)
        (visit fs fnmatch ackmate memory opts next chain path depth dev d w) _
        (visit-Grows next chain path depth dev d w descends)
        (λ v g.
          Returns-map (Grows path v) (Grows path w) _ (λ u h. Grows-trans path w v u g h)
            (visit_all-Grows next chain path depth dev ds v descends))

  search_entries-Grows :
      (next : Chain → Str → ℕ → Walk → Run Walk) (chain : Chain) (base path : Str) (depth dev : ℕ)
      (w : Walk)
      → Descends next depth
      → Returns
          (Grows path w)
          (search_entries fs fnmatch ackmate memory opts next chain base path depth dev w)
  unfolding search_entries
  search_entries-Grows next chain base path depth dev w descends = listed (fs.open_dir path) refl
    where
      listed :
          (l : Listing)
          → fs.open_dir path ≡ l
          → Returns
              (Grows path w)
              (search_entries fs fnmatch ackmate memory opts next chain base path depth dev w)
      listed not_a_directory e =
          rw (e, search_entries) (refl, own_file path ∷ [], refl, (inl refl, tt))
      listed unreadable e = rw (e, search_entries) (Grows-refl path w)
      listed (entries es) e =
          rw (e, search_entries)
            (Returns->>= (λ r. Unit {0}) (Grows path w)
              (ag_scandir
                (filename_filter fnmatch ackmate opts.filter (path_start base path)
                  (load_patterns fs fnmatch ackmate memory opts path chain))
                memory es)
              _
              (ag_scandir-Returns
                (filename_filter fnmatch ackmate opts.filter (path_start base path)
                  (load_patterns fs fnmatch ackmate memory opts path chain))
                memory es
                (All-map (λ (d : Dirent). d.d_name ≢ [])
                  (λ d.
                    Returns (λ (b : Bool). Unit {0})
                      (filename_filter fnmatch ackmate opts.filter (path_start base path)
                        (load_patterns fs fnmatch ackmate memory opts path chain) d))
                  es
                  (λ d h.
                    filename_filter-Answers fnmatch ackmate opts.filter (path_start base path)
                      (load_patterns fs fnmatch ackmate memory opts path chain) d h)
                  (sound.named path es e)))
              (elim [
                | none ↦ λ _. Grows-refl path w
                | some ds ↦ λ _.
                    visit_all-Grows next (load_patterns fs fnmatch ackmate memory opts path chain)
                      path depth dev ds w descends
              ]))

  -- One directory, if the walk below it does what it owes.
  search_dir_one :
      (fuel : ℕ) (base : Str) (dev : ℕ) (chain : Chain) (path : Str) (depth : ℕ) (w : Walk)
      → Descends (search_dir fs fnmatch ackmate memory opts fuel base dev) depth
      → Returns
          (Grows path w)
          (search_dir fs fnmatch ackmate memory opts (suc fuel) base dev chain path depth w)
  unfolding search_dir
  search_dir_one fuel base dev chain path depth w descends =
      by_result ((check_symloop_enter (fs.key path) w.symhash).0) refl
    where
      inside : Walk
      inside = record w { symhash = (check_symloop_enter (fs.key path) w.symhash).2 }

      searched :
          (check_symloop_enter (fs.key path) w.symhash).0 ≢ symloop_loop
          → Returns (Grows path w) (
              search_entries fs fnmatch ackmate memory opts
                (search_dir fs fnmatch ackmate memory opts fuel base dev)
                chain
                base
                path
                depth
                dev
                inside
              >>= λ w'. done (record w' {
                symhash =
                    (check_symloop_leave
                      (check_symloop_enter (fs.key path) w.symhash).1
                      w'.symhash).1;
              }))
      searched free =
          Returns->>= (Grows path inside) (Grows path w) _ _
            (search_entries-Grows (search_dir fs fnmatch ackmate memory opts fuel base dev) chain
              base path depth dev inside descends)
            (λ w' g. (
              ap (λ h. (check_symloop_leave (check_symloop_enter (fs.key path) w.symhash).1 h).1)
                    g.0
                  ∙ leave-enter (fs.key path) w.symhash (sound.real_keys path) free,
              g.1,
              g.2,
              g.3,
            ))

      by_result :
          (res : SymloopResult)
          → (check_symloop_enter (fs.key path) w.symhash).0 ≡ res
          → Returns
              (Grows path w)
              (search_dir fs fnmatch ackmate memory opts (suc fuel) base dev chain path depth w)
      by_result symloop_loop e =
          rw (e, search_dir)
            (enter_loop (fs.key path) w.symhash e, [], sym (append-nil w.found), tt)
      by_result symloop_ok e = rw (e, search_dir) (searched (λ l. ground (arith, e, l)))
      by_result symloop_error e = rw (e, search_dir) (searched (λ l. ground (arith, e, l)))

  -- With more rounds than levels below the depth the walk returns: it has left every directory that it
  -- has entered, what it had come to before is still there, and every file that it has come to is the
  -- path, or the path with a slash and more behind it.
  pub search_dir-Grows :
      (fuel : ℕ) (base : Str) (dev : ℕ) (chain : Chain) (path : Str) (depth : ℕ) (w : Walk)
      → depth ≤ max
      → max < fuel + depth
      → Returns
          (Grows path w)
          (search_dir fs fnmatch ackmate memory opts fuel base dev chain path depth w)
  search_dir-Grows zero base dev chain path depth w le enough = absurd (omega arith)
  search_dir-Grows (suc fuel) base dev chain path depth w le enough =
      search_dir_one fuel base dev chain path depth w (λ chain' path' w' lt.
        search_dir-Grows fuel base dev chain' path' (depth + 1) w' (omega arith) (omega arith))
