-- ===== src/Startup.antt =====
-- flexo/src/main.rs: `main` up to the socket that it listens on, with `initialize_job_context` as it
-- chooses mirrors, stores the results of their latency tests and makes the job context.
pub mod Initial
pub mod Restart
pub mod Settings
use flexo.Base.{ℕ, Bool, true, false, List, [], ◌∷◌, ◌++◌, Option, none, some}
use flexo.Base.Text.{Text, codes}
use flexo.Base.Decimal.{to_decimal}
use flexo.Job.{Result, ok, err}
use flexo.Scores.{MirrorResults}
use flexo.Growing.{IoError}
use flexo.Paths.{Component}
use flexo.Cache.{FilePath, Creation, Files, Inspection, inspect_and_initialize_cache}
use flexo.Config.{MirrorConfig, MirrorSelectionMethod, auto, predefined}
use flexo.Download.{DownloadProvider}
use flexo.Download.Equality.{mirror_job}
use flexo.Context.{new_context}
use flexo.Server.{Context}
use flexo.Mirrors.{Mirror, MirrorUrlOption, MirrorsAutoConfig}
use flexo.Selection.{MirrorSelection, Stored, selected_providers}
use flexo.MirrorCache.{
  TimestampedDownloadProviders, VersionOnly, Disk, store_latency_test_results,
  fetch_download_providers, stored_results,
}

-- What the start depends on: the network with its latency tests, JSON, the file system, and the clock,
-- as a text and in seconds.
pub record Outside (F I E C : Type 0) : Type 0 where
  pub exceeds : F → ℕ → Bool
  pub relaxed_score : F → F
  pub scaled : F → ℕ
  pub sort_unstable : List (Mirror F I × MirrorResults) → List (Mirror F I × MirrorResults)
  pub measure_latency : ℕ → Text → ℕ → Option MirrorResults
  pub perform : Text → ℕ → Result Text E
  pub mirrors_from_json : Text → Result (List (MirrorUrlOption F I)) E
  pub create_dir_all : List Component → Result (Unit {0}) IoError
  pub can_write : Text → Bool
  pub to_json : TimestampedDownloadProviders → C
  pub version_from_json : C → Result VersionOnly E
  pub results_from_json : C → Result TimestampedDownloadProviders E
  pub parse_duration : Text → Option ℕ
  pub parse_from_rfc3339 : Text → Option ℕ
  pub from_std : ℕ → Option ℕ
  pub now : Text
  pub now_seconds : ℕ

-- `unwrap` of the settings of the automatic choice is a panic without them.
unfoldable pub auto_selection :
    {F : Type 0} → Option (MirrorsAutoConfig F) → Option (MirrorSelection F)
auto_selection none = none
auto_selection (some c) = some (MirrorSelection.auto c)

unfoldable pub selection_by :
    {F : Type 0}
    → MirrorSelectionMethod
    → List Text
    → Option (MirrorsAutoConfig F)
    → Option (MirrorSelection F)
unfolding auto_selection
selection_by auto mirrors_predefined mirrors_auto = auto_selection mirrors_auto
selection_by predefined mirrors_predefined mirrors_auto =
    some (MirrorSelection.predefined mirrors_predefined)

unfoldable pub mirror_selection : {F : Type 0} → MirrorConfig F → Option (MirrorSelection F)
unfolding selection_by
mirror_selection c = selection_by c.mirror_selection_method c.mirrors_predefined c.mirrors_auto

-- A panic, `NoProviders`, or the context with the files afterwards.
pub data Initialization (C : Type 0) : Type 0 where
  panicked : Initialization C
  no_providers : Initialization C
  initialized : Context → Disk C → Initialization C

unfoldable pub initialized_with : {C : Type 0} → Option Context → Disk C → Initialization C
initialized_with none disk = panicked
initialized_with (some ctx) disk = initialized ctx disk

module _ {F I E C : Type 0} (outside : Outside F I E C) where
  -- what is known of the last latency test
  unfoldable pub last_results : MirrorConfig F → Disk C → Option Stored
  last_results properties disk =
      stored_results outside.parse_duration outside.parse_from_rfc3339 outside.from_std properties
        outside.now_seconds
        (fetch_download_providers outside.version_from_json outside.results_from_json properties
          disk)

  -- Latency tests have been run for an automatic choice only.
  unfoldable pub store_for :
      MirrorSelectionMethod → MirrorConfig F → List DownloadProvider → Disk C → Option (Disk C)
  store_for auto properties providers disk =
      store_latency_test_results outside.create_dir_all outside.can_write outside.to_json properties
        outside.now providers disk
  store_for predefined properties providers disk = some disk

  unfoldable pub context_on : List DownloadProvider → Option (Disk C) → Initialization C
  unfolding initialized_with
  context_on providers none = panicked
  context_on providers (some disk) = initialized_with (new_context mirror_job providers) disk

  unfoldable pub initialize_for :
      MirrorConfig F → Disk C → Option (List DownloadProvider) → Initialization C
  unfolding store_for context_on
  initialize_for properties disk none = panicked
  initialize_for properties disk (some []) = no_providers
  initialize_for properties disk (some (p ∷ ps)) =
      context_on (p ∷ ps) (store_for properties.mirror_selection_method properties (p ∷ ps) disk)

  unfoldable pub rated : Option Stored → Option (MirrorSelection F) → Option (List DownloadProvider)
  rated stored none = none
  rated stored (some selection) =
      selected_providers outside.exceeds outside.relaxed_score outside.scaled outside.sort_unstable
        outside.measure_latency outside.perform outside.mirrors_from_json stored selection

  unfoldable pub initialize_job_context : MirrorConfig F → Disk C → Initialization C
  unfolding initialize_for rated last_results mirror_selection
  initialize_job_context properties disk =
      initialize_for properties disk
        (rated (last_results properties disk) (mirror_selection properties))

  -- The process exits or panics, or listens on an address, with the files of the cache.
  pub data Start : Type 0 where
    exited crashed : Start
    listening : Text → Context → Disk C → Files → Start

  -- The address, and whether the socket can be bound to it.
  unfoldable pub address : MirrorConfig F → Text
  address properties =
      elim properties.listen_ip_address [ none ↦ codes "0.0.0.0" | some ip ↦ ip ]
      ++ codes ":"
      ++ to_decimal properties.port

  unfoldable pub listen : (Text → Bool) → MirrorConfig F → Files → Initialization C → Start
  unfolding address
  listen can_bind properties files panicked = crashed
  listen can_bind properties files no_providers = exited
  listen can_bind properties files (initialized ctx disk) = elim (can_bind (address properties)) [
    | true ↦ listening (address properties) ctx disk files
    | false ↦ crashed
  ]

  unfoldable pub start_inspected :
      (Text → Bool) → MirrorConfig F → Disk C → Option Inspection → Start
  unfolding listen initialize_job_context
  start_inspected can_bind properties disk none = crashed
  start_inspected can_bind properties disk (some i) =
      listen can_bind properties i.files (initialize_job_context properties disk)

  -- `main` with the loaded settings, the paths in the cache directory and the files there.
  unfoldable pub start :
      (Text → Bool)
      → (FilePath → Creation)
      → (FilePath → Bool)
      → List FilePath
      → Files
      → Disk C
      → Option (MirrorConfig F)
      → Start
  unfolding start_inspected
  start can_bind creations can_remove paths files disk none = crashed
  start can_bind creations can_remove paths files disk (some properties) =
      start_inspected can_bind properties disk
        (inspect_and_initialize_cache creations can_remove paths files)
