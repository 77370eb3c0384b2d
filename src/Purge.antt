-- ===== src/Purge.antt =====
-- flexo/src/main.rs: what the thread of a connection does when its client has been served: it purges the
-- cache, the `.cfs` files without a package and the stale files that were served once. The program
-- `flexo_purge_cache`, what `glob` finds, the clock and which files can be removed are parameters. Other
-- threads change none of these files meanwhile; the mutex keeps them from purging the caches.
pub mod CfsFiles
pub mod Stale
use flexo.Base.{
  ℕ, zero, suc, ◌+◌, ◌-◌, ◌*◌, ◌^◌, Bool, true, false, ◌||◌, not, List, [], ◌∷◌, ◌++◌, Option, none,
  some, ltb, if◌then◌else◌,
}
use flexo.Base.Text.{Text, codes, strip_prefix, strip_suffix}
use flexo.Base.Map.{get, remove}
use flexo.Job.{Result, ok, err}
use flexo.Growing.{IoError}
use flexo.Cache.{FilePath, FilePath-discrete, Node, Files}

-- What `glob` yields for an entry.
pub data GlobResult : Type 0 where
  found : FilePath → GlobResult
  invalid_unicode : GlobResult
  unreadable : GlobResult

abbrev pub is_some : Option Node → Bool
is_some none = false
is_some (some file) = true

-- The name without the dot and the suffix; `none` is the panic of `unwrap`.
unfoldable pub corresponding_package_filename : Text → Option Text
unfolding strip_prefix strip_suffix
corresponding_package_filename filename = elim (strip_prefix (codes ".") filename) [
  | none ↦ none
  | some rest ↦ strip_suffix (codes ".cfs") rest
]

-- Directories exist as well as files.
module _ (is_directory can_remove : FilePath → Bool) where
  unfoldable pub exists : FilePath → Files → Bool
  exists path files = is_directory path || is_some (get FilePath-discrete path files)

  -- `remove_file`, with an error that is only logged
  unfoldable pub remove_file : FilePath → Files → Files
  remove_file path files = if can_remove path then remove FilePath-discrete path files else files

  unfoldable pub purge_unless_exists : FilePath → FilePath → Files → Files
  unfolding exists remove_file
  purge_unless_exists pkg_path path files =
      if exists pkg_path files then files else remove_file path files

  -- `none` is a panic.
  unfoldable pub purge_cfs_files : List GlobResult → Files → Option Files
  unfolding purge_unless_exists corresponding_package_filename
  purge_cfs_files [] files = some files
  purge_cfs_files (invalid_unicode ∷ rs) files = purge_cfs_files rs files
  purge_cfs_files (unreadable ∷ rs) files = purge_cfs_files rs files
  purge_cfs_files (found path ∷ rs) files = elim (corresponding_package_filename path.file_name) [
    | none ↦ none
    | some name ↦
        purge_cfs_files rs
          (purge_unless_exists (record { directory = path.directory; file_name = name }) path files)
  ]

-- Five minutes, in nanoseconds.
abbrev pub max_age : ℕ
max_age = 60 * 5 * 10 ^ 9

module _ (modified : FilePath → Result ℕ IoError) (now : FilePath → ℕ)
    (unlink : FilePath → Result (Unit {0}) IoError) where
  -- A file from the future is skipped.
  unfoldable pub is_stale : ℕ → ℕ → Bool
  is_stale modification_time time =
      if ltb time modification_time then false else ltb max_age (time - modification_time)

  unfoldable pub remove_stale : FilePath → Files → Result Files IoError
  remove_stale path files = elim (unlink path) [
    | err e ↦ err e
    | ok u ↦ ok (remove FilePath-discrete path files)
  ]

  unfoldable pub visit_file : FilePath → Files → Result Files IoError
  unfolding is_stale remove_stale
  visit_file path files = elim (modified path) [
    | err e ↦ err e
    | ok modification_time ↦
        if is_stale modification_time (now path) then remove_stale path files else ok files
  ]

  -- Directories are passed over.
  unfoldable pub visit : Option Node → FilePath → Files → Result Files IoError
  unfolding visit_file
  visit none path files = ok files
  visit (some file) path files = visit_file path files

  -- The result, and the files afterwards.
  unfoldable pub purge_uncacheable_files :
      List GlobResult → Files → Result (Unit {0}) IoError × Files
  unfolding visit
  purge_uncacheable_files [] files = (ok tt, files)
  purge_uncacheable_files (invalid_unicode ∷ rs) files = purge_uncacheable_files rs files
  purge_uncacheable_files (unreadable ∷ rs) files = purge_uncacheable_files rs files
  purge_uncacheable_files (found path ∷ rs) files =
      elim (visit (get FilePath-discrete path files) path files) [
        | err e ↦ (err e, files)
        | ok files' ↦ purge_uncacheable_files rs files'
      ]

-- What `flexo_purge_cache` prints.
pub record Output : Type 0 where
  pub stdout : Text
  pub stderr : Text

pub data Printed : Type 0 where
  to_stdout to_stderr : Text → Printed

module _ (from_utf8 : Text → Option Text) where
  abbrev unless_blank : Text → Option Text
  unless_blank [] = none
  unless_blank (c ∷ s) = some (c ∷ s)

  unfoldable pub str_from_vec : Text → Option Text
  str_from_vec v = elim (from_utf8 v) [ none ↦ none | some s ↦ unless_blank s ]

  abbrev print_with : (Text → Printed) → Option Text → List Printed
  print_with to none = []
  print_with to (some s) = to s ∷ []

  unfoldable pub printed : Result Output IoError → List Printed
  unfolding str_from_vec
  printed (err e) = []
  printed (ok v) =
      print_with to_stderr (str_from_vec v.stderr) ++ print_with to_stdout (str_from_vec v.stdout)

  -- `command` runs the program with the number of versions that it retains.
  unfoldable pub purge_cache :
      (ℕ → Files → Result Output IoError × Files) → ℕ → Files → List Printed × Files
  unfolding printed
  purge_cache command num_versions_retain files =
      (printed (command num_versions_retain files).0, (command num_versions_retain files).1)

-- The caches are purged only after a request that has tainted the cache, unless no versions are to be
-- retained.
unfoldable pub purge_tainted :
    {E : Type 0}
    → (ℕ → Files → Files)
    → (Files → Option Files)
    → Result Bool E
    → Option ℕ
    → Files
    → Option Files
purge_tainted purge_packages purge_sizes (ok true) (some zero) files = some files
purge_tainted purge_packages purge_sizes (ok true) (some (suc v)) files =
    purge_sizes (purge_packages (suc v) files)
purge_tainted purge_packages purge_sizes (ok true) none files = some files
purge_tainted purge_packages purge_sizes (ok false) num_versions_retain files = some files
purge_tainted purge_packages purge_sizes (err e) num_versions_retain files = some files

-- What follows `serve_client`; the result of purging the files that were served once is only logged.
-- `none` is a panic, which ends the process.
unfoldable pub after_client :
    {E : Type 0}
    → (ℕ → Files → Files)
    → (Files → Option Files)
    → (Files → Result (Unit {0}) IoError × Files)
    → Result Bool E
    → Option ℕ
    → Files
    → Option Files
unfolding purge_tainted
after_client purge_packages purge_sizes purge_uncacheable tainted num_versions_retain files =
    elim (purge_tainted purge_packages purge_sizes tainted num_versions_retain files) [
      | none ↦ none
      | some files' ↦ some (purge_uncacheable files').1
    ]
