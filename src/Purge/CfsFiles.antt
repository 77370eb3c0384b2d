-- ===== src/Purge/CfsFiles.antt =====
-- Which `.cfs` files are left.
use flexo.Base.{
  ◌≡◌, ◌≢◌, refl, sym, ap, subst, ◌∙◌, Bool, true, false, not, ◌&&◌, ◌||◌, List, [], ◌∷◌, Option,
  none, some, arith, contains, NotIn, if◌then◌else◌,
}
use flexo.Base.Text.{Text, codes, strip_suffix-append}
use flexo.Base.Map.{get, get-remove}
use flexo.Cache.{FilePath, FilePath-discrete, Node, Files, cfs_path_from_pkg_path}
use flexo.Cache.Sizes.{cfs_path_ne}
use flexo.Purge.{
  GlobResult, found, invalid_unicode, unreadable, is_some, corresponding_package_filename, exists,
  remove_file, purge_unless_exists, purge_cfs_files,
}

corresponding-cfs :
    (path : FilePath)
    → corresponding_package_filename (cfs_path_from_pkg_path path).file_name ≡ some path.file_name
unfolding corresponding_package_filename cfs_path_from_pkg_path
corresponding-cfs path = strip_suffix-append (codes ".cfs") path.file_name

-- The paths that `glob` finds; all of them have names of `.cfs` files.
abbrev pub listed : List GlobResult → List FilePath
listed [] = []
listed (found path ∷ rs) = path ∷ listed rs
listed (invalid_unicode ∷ rs) = listed rs
listed (unreadable ∷ rs) = listed rs

abbrev pub AllMatch : List GlobResult → Type 0
AllMatch [] = Unit
AllMatch (found path ∷ rs) =
    ((name : Text) × (corresponding_package_filename path.file_name ≡ some name)) × AllMatch rs
AllMatch (invalid_unicode ∷ rs) = AllMatch rs
AllMatch (unreadable ∷ rs) = AllMatch rs

-- What is left of a file that may have to go.
abbrev pub left_over : Bool → Option Node → Option Node
left_over gone file = if gone then none else file

left_over_twice :
    (found_later can_go there : Bool) (file now after : Option Node)
    → now ≡ left_over (can_go && not there) file
    → after ≡ left_over (found_later && can_go && not there) now
    → after ≡ left_over (can_go && not there) file
left_over_twice found_later can_go true file now after h k = ground arith
left_over_twice found_later true false file now after h k = ground arith
left_over_twice found_later false false file now after h k = ground arith

module _ (is_directory can_remove : FilePath → Bool) where
  get-purge_unless_exists_ne :
      (k pkg_path path : FilePath) (files : Files)
      → k ≢ path
      → get FilePath-discrete k (purge_unless_exists is_directory can_remove pkg_path path files)
        ≡ get FilePath-discrete k files
  unfolding purge_unless_exists remove_file
  get-purge_unless_exists_ne k pkg_path path files ne =
      ground (arith, get-remove FilePath-discrete k path files)

  get-purge_unless_exists_self :
      (pkg_path path : FilePath) (files : Files)
      → get FilePath-discrete path (purge_unless_exists is_directory can_remove pkg_path path files)
        ≡ left_over
            (can_remove path && not (exists is_directory can_remove pkg_path files))
            (get FilePath-discrete path files)
  unfolding purge_unless_exists remove_file
  get-purge_unless_exists_self pkg_path path files =
      ground (arith, get-remove FilePath-discrete path path files)

  exists_same :
      (path : FilePath) (files files' : Files)
      → get FilePath-discrete path files' ≡ get FilePath-discrete path files
      → exists is_directory can_remove path files' ≡ exists is_directory can_remove path files
  unfolding exists
  exists_same path files files' same = ap (λ f. is_directory path || is_some f) same

  -- The files of a package before and after.
  pub record IsPurged (rs : List GlobResult) (path : FilePath) (files files' : Files) : Type 0 where
    pub kept : get FilePath-discrete path files' ≡ get FilePath-discrete path files
    pub size_file :
        get FilePath-discrete (cfs_path_from_pkg_path path) files'
        ≡ left_over
            (contains FilePath-discrete (cfs_path_from_pkg_path path) (listed rs)
              && can_remove (cfs_path_from_pkg_path path)
              && not (exists is_directory can_remove path files))
            (get FilePath-discrete (cfs_path_from_pkg_path path) files)

  -- A step at a file of another package, and at that of this one.
  step_other :
      (q pkg_path path : FilePath) (rs : List GlobResult) (files files' : Files)
      → path ≢ q
      → cfs_path_from_pkg_path path ≢ q
      → IsPurged rs path (purge_unless_exists is_directory can_remove pkg_path q files) files'
      → IsPurged (found q ∷ rs) path files files'
  unfolding contains
  step_other q pkg_path path rs files files' ne ne_cfs h =
      let next = purge_unless_exists is_directory can_remove pkg_path q files in
      let cfs = cfs_path_from_pkg_path path in
      let same = get-purge_unless_exists_ne path pkg_path q files ne in
      let same_cfs = get-purge_unless_exists_ne cfs pkg_path q files ne_cfs in
      let there = exists_same path files next same in
      let skipped : contains FilePath-discrete cfs (listed (found q ∷ rs))
          ≡ contains FilePath-discrete cfs (listed rs) =
        ground arith in
      record {
        kept = h.kept ∙ same;
        size_file = rw skipped (rw (sym there) (rw (sym same_cfs) h.size_file));
      }

  step_own :
      (path : FilePath) (rs : List GlobResult) (files files' : Files)
      → IsPurged rs path
          (purge_unless_exists is_directory can_remove path (cfs_path_from_pkg_path path) files)
          files'
      → IsPurged (found (cfs_path_from_pkg_path path) ∷ rs) path files files'
  unfolding contains
  step_own path rs files files' h =
      let cfs = cfs_path_from_pkg_path path in
      let next = purge_unless_exists is_directory can_remove path cfs files in
      let same = get-purge_unless_exists_ne path path cfs files (cfs_path_ne path) in
      let there = exists_same path files next same in
      let own = get-purge_unless_exists_self path cfs files in
      let here : contains FilePath-discrete cfs (listed (found cfs ∷ rs)) ≡ true = ground arith in
      record {
        kept = h.kept ∙ same;
        size_file = rw here (
            left_over_twice (contains FilePath-discrete cfs (listed rs)) (can_remove cfs)
              (exists is_directory can_remove path files) _ _ _ own (rw (sym there) h.size_file));
      }

  -- The package of its own `.cfs` file is the file itself.
  package_of :
      (path q : FilePath) (name : Text)
      → cfs_path_from_pkg_path path ≡ q
      → corresponding_package_filename q.file_name ≡ some name
      → (record { directory = q.directory; file_name = name }) ≡ path
  unfolding cfs_path_from_pkg_path
  package_of path q name own e =
      let names : some path.file_name ≡ some name =
        sym (corresponding-cfs path)
        ∙ ap (λ (f : FilePath). corresponding_package_filename f.file_name) own
        ∙ e in
      let same_name : path.file_name ≡ name = cc names in
      let same_directory : path.directory ≡ q.directory = ap (λ (f : FilePath). f.directory) own in
      λ i. record { directory = sym same_directory i; file_name = sym same_name i }

  step-IsPurged :
      (q path : FilePath) (name : Text) (rs : List GlobResult) (files files' : Files)
      → corresponding_package_filename q.file_name ≡ some name
      → path ≢ q
      → IsPurged rs path
          (purge_unless_exists is_directory can_remove
            (record { directory = q.directory; file_name = name })
            q
            files)
          files'
      → IsPurged (found q ∷ rs) path files files'
  step-IsPurged q path name rs files files' e ne h =
      elim (FilePath-discrete (cfs_path_from_pkg_path path) q) [
        | no other ↦ step_other q _ path rs files files' ne other h
        | yes own ↦
            subst (λ (c : FilePath). IsPurged (found c ∷ rs) path files files') own
              (step_own path rs files files' (
                subst
                  (λ (c : FilePath).
                    IsPurged rs path (purge_unless_exists is_directory can_remove path c files)
                      files')
                  (sym own)
                  (subst
                    (λ (c : FilePath).
                      IsPurged rs path (purge_unless_exists is_directory can_remove c q files)
                        files')
                    (package_of path q name own e) h)))
      ]

  -- When `glob` finds only names of `.cfs` files, purging does not panic, and for every file that is none
  -- of those that it finds: the file is kept as it was, and its `.cfs` file is kept as well, unless that
  -- was found and can be removed and the file is not there.
  pub purge_cfs_files-IsPurged :
      (rs : List GlobResult) (path : FilePath) (files : Files)
      → AllMatch rs
      → NotIn path (listed rs)
      → (files' : Files) × (purge_cfs_files is_directory can_remove rs files ≡ some files')
        × IsPurged rs path files files'
  unfolding purge_cfs_files contains
  purge_cfs_files-IsPurged [] path files m n =
      (files, refl, record { kept = refl; size_file = refl })
  purge_cfs_files-IsPurged (invalid_unicode ∷ rs) path files m n =
      let (files', e, h) = purge_cfs_files-IsPurged rs path files m n in
      (files', e, record { kept = h.kept; size_file = h.size_file })
  purge_cfs_files-IsPurged (unreadable ∷ rs) path files m n =
      let (files', e, h) = purge_cfs_files-IsPurged rs path files m n in
      (files', e, record { kept = h.kept; size_file = h.size_file })
  purge_cfs_files-IsPurged (found q ∷ rs) path files ((name, named), m) (ne, n) =
      let next =
        purge_unless_exists is_directory can_remove
          (record { directory = q.directory; file_name = name }) q files in
      let (files', e, h) = purge_cfs_files-IsPurged rs path next m n in
      (files', rw (named, purge_cfs_files) e, step-IsPurged q path name rs files files' named ne h)
