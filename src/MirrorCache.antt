-- ===== src/MirrorCache.antt =====
-- flexo/src/mirror_cache.rs, flexo/src/fs_utils.rs and, of flexo/src/main.rs and
-- flexo/src/mirror_config.rs, what decides whether the latency tests are repeated: the file with the
-- results of the last latency test. JSON, the clock, dates and durations are parameters; a point in time
-- counts the seconds from the earliest date.
pub mod RoundTrip
use flexo.Base.{
  ℕ, ◌+◌, ◌*◌, Bool, true, false, List, [], ◌∷◌, Option, none, some, ltb, ◌==◌, if◌then◌else◌,
}
use flexo.Base.Text.{Text, codes, text_eq}
use flexo.Job.{Result, ok, err}
use flexo.Config.{MirrorConfig}
use flexo.Growing.{IoError}
use flexo.Paths.{Component, root_dir, cur_dir, parent_dir, normal, components}
use flexo.Download.{DownloadProvider}
use flexo.Selection.{Stored}

abbrev pub timestamped_download_providers_version : ℕ
timestamped_download_providers_version = 3

abbrev pub default_latency_test_results_file : Text
default_latency_test_results_file = codes "/var/cache/flexo/state/latency_test_results.json"

pub record TimestampedDownloadProviders : Type 0 where
  pub version : Option ℕ
  pub timestamp : Text
  pub download_providers : List DownloadProvider

pub record VersionOnly : Type 0 where
  pub version : Option ℕ

pub data DemarshallError (E : Type 0) : Type 0 where
  version_mismatch : DemarshallError E
  serde_error : E → DemarshallError E
  io_error : IoError → DemarshallError E

unfoldable pub latency_test_results_file : {F : Type 0} → MirrorConfig F → Text
latency_test_results_file properties = elim properties.mirrorlist_latency_test_results_file [
  | none ↦ default_latency_test_results_file
  | some p ↦ p
]

-- `Path::parent`, by components: a root and an empty path have none.
unfoldable pub parent : List Component → Option (List Component)
parent [] = none
parent (root_dir ∷ []) = none
parent (cur_dir ∷ []) = some []
parent (parent_dir ∷ []) = some []
parent (normal s ∷ []) = some []
parent (c ∷ d ∷ ds) = elim (parent (d ∷ ds)) [ none ↦ none | some rest ↦ some (c ∷ rest) ]

-- Files by their paths; what reading one gives.
abbrev pub Disk : Type 0 → Type 0
Disk C = Text → Result C IoError

unfoldable pub write_file : {C : Type 0} → Text → C → Disk C → Disk C
write_file path content disk p = if text_eq p path then ok content else disk p

-- What follows `create_dir_all`: `none` is a panic.
unfoldable pub create_dir_unless_exists :
    (List Component → Result (Unit {0}) IoError) → List Component → Option (Unit {0})
create_dir_unless_exists create_dir_all directory = elim (create_dir_all directory) [
  | ok u ↦ some u
  | err e ↦ none
]

-- The contents of files are of a parameter type, as are the errors of the parser. `can_write` says which
-- files can be written.
module _ {C : Type 0} (create_dir_all : List Component → Result (Unit {0}) IoError)
    (can_write : Text → Bool) (to_json : TimestampedDownloadProviders → C) where
  -- what follows `path.parent()`
  unfoldable pub store_in : Option (List Component) → Text → C → Disk C → Option (Disk C)
  unfolding create_dir_unless_exists write_file
  store_in none path serialized disk = none
  store_in (some directory) path serialized disk =
      elim (create_dir_unless_exists create_dir_all directory) [
        | none ↦ none
        | some u ↦ if can_write path then some (write_file path serialized disk) else none
      ]

  -- The files afterwards; the providers are given back as they are.
  unfoldable pub store_latency_test_results :
      {F : Type 0} → MirrorConfig F → Text → List DownloadProvider → Disk C → Option (Disk C)
  unfolding store_in latency_test_results_file parent
  store_latency_test_results properties now download_providers disk =
      let file_path = latency_test_results_file properties in
      store_in (parent (components file_path)) file_path
        (to_json (record {
          version = some timestamped_download_providers_version;
          timestamp = now;
          download_providers = download_providers;
        }))
        disk

-- whether the version is the current one
unfoldable pub is_current : Option ℕ → Bool
is_current none = false
is_current (some v) = v == timestamped_download_providers_version

module _ {C E : Type 0} (version_from_json : C → Result VersionOnly E)
    (from_json : C → Result TimestampedDownloadProviders E) where
  -- `?` with the conversion of an error of the parser
  unfoldable pub demarshalled :
      Result TimestampedDownloadProviders E
      → Result TimestampedDownloadProviders (DemarshallError E)
  demarshalled (ok t) = ok t
  demarshalled (err e) = err (serde_error e)

  unfoldable pub of_version :
      Result VersionOnly E → C → Result TimestampedDownloadProviders (DemarshallError E)
  unfolding is_current demarshalled
  of_version (err e) contents = err (serde_error e)
  of_version (ok v) contents =
      if is_current v.version then demarshalled (from_json contents) else err version_mismatch

  unfoldable pub of_contents :
      Result C IoError → Result TimestampedDownloadProviders (DemarshallError E)
  unfolding of_version
  of_contents (err e) = err (io_error e)
  of_contents (ok contents) = of_version (version_from_json contents) contents

  unfoldable pub fetch_download_providers :
      {F : Type 0}
      → MirrorConfig F
      → Disk C
      → Result TimestampedDownloadProviders (DemarshallError E)
  unfolding of_contents latency_test_results_file
  fetch_download_providers properties disk =
      of_contents (disk (latency_test_results_file properties))

abbrev pub default_refresh_after_seconds : ℕ
default_refresh_after_seconds = 3600 * 24 * 14

module _ (parse_duration : Text → Option ℕ) where
  unfoldable pub refresh_latency_tests_after : {F : Type 0} → MirrorConfig F → ℕ
  refresh_latency_tests_after properties = elim properties.refresh_latency_tests_after [
    | none ↦ default_refresh_after_seconds
    | some s ↦ elim (parse_duration s) [ none ↦ default_refresh_after_seconds | some d ↦ d ]
  ]

  module _ (parse_from_rfc3339 : Text → Option ℕ) (from_std : ℕ → Option ℕ) where
    -- the comparison of the time since the last check
    unfoldable pub is_older : ℕ → Option ℕ → Option ℕ → Bool
    is_older now none after = true
    is_older now (some last_check) none = true
    is_older now (some last_check) (some after) = ltb (last_check + after) now

    unfoldable pub latency_tests_refresh_required :
        {F : Type 0} → MirrorConfig F → ℕ → TimestampedDownloadProviders → Bool
    unfolding is_older
    latency_tests_refresh_required properties now t =
        is_older now (parse_from_rfc3339 t.timestamp)
          (from_std (refresh_latency_tests_after properties))

    -- What the choice of mirrors knows of the last latency test.
    unfoldable pub stored_results :
        {F E : Type 0}
        → MirrorConfig F
        → ℕ
        → Result TimestampedDownloadProviders (DemarshallError E)
        → Option Stored
    unfolding latency_tests_refresh_required
    stored_results properties now (err e) = none
    stored_results properties now (ok t) = some (record {
      download_providers = t.download_providers;
      is_refresh_required = latency_tests_refresh_required properties now t;
    })
