-- ===== src/Tests/Purging.antt =====
-- The theorems on purging, applied where their hypotheses hold.
use flexo.Base.{
  ℕ, ◌≡◌, refl, Bool, true, false, List, [], ◌∷◌, some, arith, NotIn, ap, length, ◌*◌, ◌^◌,
}
use flexo.Base.Text.{codes}
use flexo.Job.{Result, ok}
use flexo.Growing.{IoError}
use flexo.Base.Map.{get, remove}
use flexo.Cache.{FilePath, FilePath-discrete, readable, Files}
use flexo.Purge.{
  GlobResult, found, unreadable, corresponding_package_filename, purge_cfs_files,
  purge_uncacheable_files,
}
use flexo.Purge.CfsFiles.{listed, AllMatch, IsPurged, purge_cfs_files-IsPurged}
use flexo.Purge.Stale.{IsPruned, purge_uncacheable_files-IsPruned}

abbrev package_file : FilePath
package_file = record { directory = codes "/c"; file_name = codes "a.pkg" }

abbrev lost_sizes : FilePath
lost_sizes = record { directory = codes "/c"; file_name = codes ".b.pkg.cfs" }

abbrev cache_files : Files
cache_files = (package_file, readable (codes "abc")) ∷ (lost_sizes, readable (codes "4")) ∷ []

abbrev globbed : List GlobResult
globbed = unreadable ∷ found lost_sizes ∷ []

abbrev no_directories : FilePath → Bool
no_directories path = false

abbrev removable : FilePath → Bool
removable path = true

globbed-AllMatch : AllMatch globbed
unfolding corresponding_package_filename
globbed-AllMatch = ((codes "b.pkg", refl), tt)

not_globbed : NotIn package_file (listed globbed)
not_globbed = (
  (λ e.
      let names : length package_file.file_name ≡ length lost_sizes.file_name =
        ap (λ (p : FilePath). length p.file_name) e in
      omega (arith, names)),
  tt,
)

purge_cfs_files-IsPurged_example :
    (files' : Files) × (purge_cfs_files no_directories removable globbed cache_files ≡ some files')
    × IsPurged no_directories removable globbed package_file cache_files files'
purge_cfs_files-IsPurged_example =
    purge_cfs_files-IsPurged no_directories removable globbed package_file cache_files
      globbed-AllMatch not_globbed

lost_sizes_purged :
    purge_cfs_files no_directories removable globbed cache_files
    ≡ some ((package_file, readable (codes "abc")) ∷ [])
unfolding purge_cfs_files get FilePath-discrete remove
lost_sizes_purged = refl

-- Ten minutes, in nanoseconds, after the file was written.
abbrev written_at : FilePath → Result ℕ IoError
written_at path = ok 0

abbrev ten_minutes : FilePath → ℕ
ten_minutes path = 600 * 10 ^ 9

abbrev unlinked : FilePath → Result (Unit {0}) IoError
unlinked path = ok tt

purge_uncacheable_files-IsPruned_example :
    IsPruned written_at ten_minutes unlinked globbed lost_sizes cache_files
      (purge_uncacheable_files written_at ten_minutes unlinked globbed cache_files).1
      (purge_uncacheable_files written_at ten_minutes unlinked globbed cache_files).0
purge_uncacheable_files-IsPruned_example =
    purge_uncacheable_files-IsPruned written_at ten_minutes unlinked globbed lost_sizes cache_files
