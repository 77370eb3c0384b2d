-- ===== src/MirrorCache/RoundTrip.antt =====
-- flexo/src/mirror_cache.rs: the results of the latency tests, stored and read.
use flexo.Base.{
  ◌≡◌, refl, sym, ap, ◌∙◌, Bool, true, List, Option, none, some, Bool-cases, Option-cases, inl, inr,
}
use flexo.Base.Text.{Text}
use flexo.Job.{Result, ok}
use flexo.Growing.{IoError}
use flexo.Paths.{Component, components}
use flexo.Config.{MirrorConfig}
use flexo.Download.{DownloadProvider}
use flexo.Rating.Counts.{same_text}
use flexo.MirrorCache.{
  TimestampedDownloadProviders, VersionOnly, timestamped_download_providers_version,
  latency_test_results_file, Disk, parent, create_dir_unless_exists, write_file, store_in,
  store_latency_test_results, demarshalled, of_version, of_contents, fetch_download_providers,
  is_current,
}

-- The results as they are written at a time.
abbrev pub stamped : Text → List DownloadProvider → TimestampedDownloadProviders
stamped now download_providers = record {
  version = some timestamped_download_providers_version;
  timestamp = now;
  download_providers = download_providers;
}

module _ {C : Type 0} (create_dir_all : List Component → Result (Unit {0}) IoError)
    (can_write : Text → Bool) (to_json : TimestampedDownloadProviders → C) where
  -- Everything that storing in this file depends on works.
  record IsStorable (directory : Option (List Component)) (path : Text) : Type 0 where
    folder : List Component
    has_folder : directory ≡ some folder
    made : create_dir_unless_exists create_dir_all folder ≡ some tt
    writable : can_write path ≡ true

  store_in_written :
      (directory : Option (List Component)) (path : Text) (content : C) (disk disk' : Disk C)
      → store_in create_dir_all can_write to_json directory path content disk ≡ some disk'
      → IsStorable directory path × (write_file path content disk ≡ disk')
  unfolding store_in
  store_in_written none path content disk disk' h = cc
  store_in_written (some folder) path content disk disk' h =
      elim (Option-cases (create_dir_unless_exists create_dir_all folder)) [
        | inl failed ↦ cc (rw (failed, store_in) at h)
        | inr (u, made) ↦ elim (Bool-cases (can_write path)) [
          | inr denied ↦ cc (rw (made, denied, store_in) at h)
          | inl writable ↦ (
            record { folder = folder; has_folder = refl; made = made; writable = writable },
            cc (rw (made, writable, store_in) at h),
          )
        ]
      ]

  store_in-IsStorable :
      (directory : Option (List Component)) (path : Text) (content : C) (disk : Disk C)
      → IsStorable directory path
      → store_in create_dir_all can_write to_json directory path content disk
        ≡ some (write_file path content disk)
  unfolding store_in
  store_in-IsStorable directory path content disk s =
      rw s.has_folder (rw (s.made, store_in) (rw s.writable refl))

  -- What could be stored can be stored again, whatever the files are then.
  pub store_latency_test_results_again :
      {F : Type 0} (c : MirrorConfig F) (now later : Text) (ps qs : List DownloadProvider)
      (disk disk' other : Disk C)
      → store_latency_test_results create_dir_all can_write to_json c now ps disk ≡ some disk'
      → store_latency_test_results create_dir_all can_write to_json c later qs other
        ≡ some (write_file (latency_test_results_file c) (to_json (stamped later qs)) other)
  unfolding store_latency_test_results
  store_latency_test_results_again c now later ps qs disk disk' other h =
      store_in-IsStorable _ (latency_test_results_file c) _ other
        (store_in_written (parent (components (latency_test_results_file c))) _ _ disk disk' h).0

  -- After the results have been stored their file has them, as JSON.
  pub store_latency_test_results_written :
      {F : Type 0} (c : MirrorConfig F) (now : Text) (ps : List DownloadProvider)
      (disk disk' : Disk C)
      → store_latency_test_results create_dir_all can_write to_json c now ps disk ≡ some disk'
      → disk' (latency_test_results_file c) ≡ ok (to_json (stamped now ps))
  unfolding store_latency_test_results write_file
  store_latency_test_results_written c now ps disk disk' h =
      let file = latency_test_results_file c in
      let written = (store_in_written (parent (components file)) file _ disk disk' h).1 in
      let known : write_file file (to_json (stamped now ps)) disk file ≡ disk' file =
        ap (λ (d : Disk C). d file) written in
      sym known ∙ rw (same_text file file refl) refl

-- The parser reads what has been written, its version included.
pub record ReadsBack {C E : Type 0} (to_json : TimestampedDownloadProviders → C)
    (version_from_json : C → Result VersionOnly E)
    (from_json : C → Result TimestampedDownloadProviders E) : Type 0 where
  pub version_only :
      (t : TimestampedDownloadProviders)
      → version_from_json (to_json t) ≡ ok (record { version = t.version })
  pub whole : (t : TimestampedDownloadProviders) → from_json (to_json t) ≡ ok t

pub fetch_download_providers-stamped :
    {F C E : Type 0} (to_json : TimestampedDownloadProviders → C)
    (version_from_json : C → Result VersionOnly E)
    (from_json : C → Result TimestampedDownloadProviders E) (c : MirrorConfig F) (now : Text)
    (ps : List DownloadProvider) (disk : Disk C)
    → ReadsBack to_json version_from_json from_json
    → disk (latency_test_results_file c) ≡ ok (to_json (stamped now ps))
    → fetch_download_providers version_from_json from_json c disk ≡ ok (stamped now ps)
unfolding fetch_download_providers of_contents of_version is_current demarshalled
fetch_download_providers-stamped to_json version_from_json from_json c now ps disk reads there =
    rw there (rw (reads.version_only (stamped now ps)) (rw (reads.whole (stamped now ps)) refl))
