-- ===== src/Startup/Initial.antt =====
-- flexo/src/main.rs: `initialize_job_context` with mirrors that are chosen automatically.
use flexo.Base.{
  ◌≡◌, ◌≢◌, refl, sym, subst, true, List, [], ◌∷◌, Option, none, some, Option-cases, inl, inr, ◌⊎◌,
}
use flexo.Job.{ok}
use flexo.Paths.{Component, components}
use flexo.Config.{MirrorConfig, auto}
use flexo.Download.{DownloadProvider}
use flexo.Download.Equality.{mirror_job}
use flexo.Context.{new_context}
use flexo.Mirrors.{MirrorsAutoConfig}
use flexo.Rating.Distinct.{Permutes, HasDistinct, new_context-HasDistinct}
use flexo.Selection.{MirrorSelection, Stored, selected_providers}
use flexo.Selection.Start.{IsUsable, IsReached, IsChosen, fetch_auto-IsChosen}
use flexo.MirrorCache.{
  Disk, write_file, store_latency_test_results, store_in, create_dir_unless_exists, parent,
  latency_test_results_file,
}
use flexo.MirrorCache.RoundTrip.{stamped}
use flexo.Startup.{
  Outside, panicked, initialized_with, auto_selection, selection_by, mirror_selection, last_results,
  store_for, context_on, initialize_for, rated, initialize_job_context,
}

module _ {F I E C : Type 0} (o : Outside F I E C) (c : MirrorConfig F) where
  -- The file of the results has a parent, which is there or can be made, and can be written itself.
  pub record CanStore : Type 0 where
    pub directory : List Component
    pub in_directory : parent (components (latency_test_results_file c)) ≡ some directory
    pub creates : o.create_dir_all directory ≡ ok tt
    pub writes : o.can_write (latency_test_results_file c) ≡ true

  stores :
      (ps : List DownloadProvider) (disk : Disk C)
      → CanStore
      → (disk' : Disk C) × (store_latency_test_results o.create_dir_all o.can_write o.to_json c
            o.now ps disk
          ≡ some disk')
  unfolding store_latency_test_results store_in create_dir_unless_exists
  stores ps disk can = (
    write_file (latency_test_results_file c) (o.to_json (stamped o.now ps)) disk,
    rw (can.in_directory, can.creates, can.writes, store_in, create_dir_unless_exists) refl,
  )

  abbrev Distinct : List DownloadProvider → Type 0
  Distinct = HasDistinct o.exceeds o.relaxed_score o.sort_unstable

  -- An endpoint can be reached, or the results of the last latency test are there, with no provider twice.
  abbrev pub HasSource : Option Stored → MirrorsAutoConfig F → Type 0
  HasSource stored s =
      IsReached o.exceeds o.relaxed_score o.scaled o.sort_unstable o.measure_latency o.perform
        o.mirrors_from_json stored s
      ⊎ IsUsable o.exceeds o.relaxed_score o.scaled o.sort_unstable o.measure_latency o.perform
          o.mirrors_from_json stored stored

  made-≢-panicked :
      (p : DownloadProvider) (ps : List DownloadProvider) (disk : Disk C)
      → Distinct (p ∷ ps)
      → initialized_with (new_context mirror_job (p ∷ ps)) disk ≢ panicked
  unfolding initialized_with
  made-≢-panicked p ps disk distinct h = elim (Option-cases (new_context mirror_job (p ∷ ps))) [
    | inl twice ↦ new_context-HasDistinct (p ∷ ps) distinct twice
    | inr (ctx, made) ↦ cc (rw made at h)
  ]

  initialize_for-≢-panicked :
      (chosen : Option (List DownloadProvider)) (disk : Disk C)
      → c.mirror_selection_method ≡ auto
      → CanStore
      → IsChosen o.exceeds o.relaxed_score o.scaled o.sort_unstable o.measure_latency o.perform
          o.mirrors_from_json
          (last_results o c disk)
          chosen
      → initialize_for o c disk chosen ≢ panicked
  unfolding initialize_for store_for context_on store_latency_test_results
  initialize_for-≢-panicked none disk method can chosen h = chosen
  initialize_for-≢-panicked (some []) disk method can chosen h = cc
  initialize_for-≢-panicked (some (p ∷ ps)) disk method can chosen h =
      let (disk', stored) = stores (p ∷ ps) disk can in
      made-≢-panicked p ps disk' chosen (rw (method, stored) at h)

  auto_settings :
      (s : MirrorsAutoConfig F)
      → c.mirror_selection_method ≡ auto
      → c.mirrors_auto ≡ some s
      → mirror_selection c ≡ some (MirrorSelection.auto s)
  unfolding mirror_selection selection_by auto_selection
  auto_settings s method settings = rw (method, settings) refl

  -- With mirrors that are chosen automatically, and with the settings for that, the job context is made and
  -- the results of the latency tests are stored without a panic, or there is no provider: no identifier is
  -- there twice, whatever the status page lists. An endpoint can be reached, or else the results of the last
  -- latency test can be read and have no provider twice; the file of the results can be written, in a
  -- directory that can be made; and the sort of the latency tests yields each element as often as it was
  -- there.
  pub initialize_job_context-≢-panicked :
      (s : MirrorsAutoConfig F) (disk : Disk C)
      → c.mirror_selection_method ≡ auto
      → c.mirrors_auto ≡ some s
      → Permutes o.exceeds o.relaxed_score o.sort_unstable
      → CanStore
      → HasSource (last_results o c disk) s
      → initialize_job_context o c disk ≢ panicked
  unfolding initialize_job_context rated selected_providers
  initialize_job_context-≢-panicked s disk method settings permutes can either =
      subst (λ m. initialize_for o c disk (rated o (last_results o c disk) m) ≢ panicked)
        (sym (auto_settings s method settings))
        (initialize_for-≢-panicked _ disk method can (
          fetch_auto-IsChosen o.exceeds o.relaxed_score o.scaled o.sort_unstable o.measure_latency
            o.perform o.mirrors_from_json (last_results o c disk) s permutes either))
