-- ===== src/Startup/Restart.antt =====
-- Two starts, one after the other.
use flexo.Base.{
  ℕ, ◌≡◌, refl, sym, ap, ◌∙◌, ◌+◌, ◌≤◌, false, List, [], ◌∷◌, Option, none, some, Option-cases, inl,
  inr, arith,
}
use flexo.Base.Text.{Text}
use flexo.Job.{Result, err}
use flexo.Config.{MirrorConfig, auto}
use flexo.Download.{DownloadProvider}
use flexo.Download.Equality.{mirror_job}
use flexo.Context.{new_context}
use flexo.Server.{Context}
use flexo.Mirrors.{
  Mirror, MirrorsAutoConfig, fetch_providers_from_json_endpoint, initial_connectivity_num_attempts,
}
use flexo.Mirrors.Fetch.{try_num_attempts-IsFirst}
use flexo.Rating.{CountryFilter, limit}
use flexo.Selection.{
  test_extent, get_country_filter, MirrorSelection, Stored, selected_providers, fetch_auto,
  fetch_fallbacks, rate_or_cached, mirrors_from_cache,
}
use flexo.MirrorCache.{
  Disk, store_latency_test_results, stored_results, latency_tests_refresh_required,
  refresh_latency_tests_after, is_older, latency_test_results_file, write_file,
}
use flexo.MirrorCache.RoundTrip.{
  stamped, ReadsBack, store_latency_test_results_again, store_latency_test_results_written,
  fetch_download_providers-stamped,
}
use flexo.Startup.{
  Outside, Initialization, panicked, no_providers, initialized, auto_selection, selection_by,
  mirror_selection, initialized_with, last_results, store_for, context_on, initialize_for, rated,
  initialize_job_context,
}

-- the job context that was made
unfoldable pub made_context : {C : Type 0} → Initialization C → Option Context
made_context panicked = none
made_context no_providers = none
made_context (initialized ctx disk) = some ctx

module _ {F I E C : Type 0} (before after : Outside F I E C) where
  -- The same directories and files can be written, the parser reads what has been written, and no
  -- endpoint is reached afterwards.
  pub record IsOffline : Type 0 where
    pub directories : after.create_dir_all ≡ before.create_dir_all
    pub writable : after.can_write ≡ before.can_write
    pub format : after.to_json ≡ before.to_json
    pub reads : ReadsBack before.to_json after.version_from_json after.results_from_json
    pub unreached : (uri : Text) (n : ℕ) → (e : E) × (after.perform uri n ≡ err e)

module _ {F I E C : Type 0} (o : Outside F I E C) where
  abbrev IsUnreached : Type 0
  IsUnreached = (uri : Text) (n : ℕ) → (e : E) × (o.perform uri n ≡ err e)

  abbrev fetched : Text → Result (List (Mirror F I)) E
  fetched = fetch_providers_from_json_endpoint o.perform o.mirrors_from_json o.scaled

  fetch_unreached : IsUnreached → (uri : Text) → (e : E) × (fetched uri ≡ err e)
  unfolding fetch_providers_from_json_endpoint
  fetch_unreached unreached uri =
      let tried =
        try_num_attempts-IsFirst initial_connectivity_num_attempts (o.perform uri) (omega arith) in
      let (e, failed) = unreached uri tried.at in
      (e, rw (sym tried.answer ∙ failed, fetch_providers_from_json_endpoint) refl)

  fetch_fallbacks_unreached :
      (result : Result (List (Mirror F I)) E) (e : E) (fallbacks : List Text)
      → IsUnreached
      → result ≡ err e
      → (d : E) × (fetch_fallbacks fetched result fallbacks ≡ err d)
  unfolding fetch_fallbacks
  fetch_fallbacks_unreached result e [] unreached failed = (e, failed)
  fetch_fallbacks_unreached result e (uri ∷ uris) unreached failed =
      let (d, again) = fetch_unreached unreached uri in
      let (c, last) = fetch_fallbacks_unreached (fetched uri) d uris unreached again in
      (c, rw failed last)

  -- With no endpoint reached the providers are those of the last latency test.
  rated_unreached :
      (stored : Stored) (s : MirrorsAutoConfig F)
      → IsUnreached
      → rated o (some stored) (some (MirrorSelection.auto s)) ≡ some stored.download_providers
  unfolding rated selected_providers fetch_auto rate_or_cached mirrors_from_cache
  rated_unreached stored s unreached =
      let (e, first) = fetch_unreached unreached s.mirrors_status_json_endpoint in
      let (d, all) =
        fetch_fallbacks_unreached _ e s.mirrors_status_json_endpoint_fallbacks unreached first in
      rw (all, fetch_auto) refl

  context_on_initialized :
      (ps : List DownloadProvider) (stored : Option (Disk C)) (ctx : Context) (disk : Disk C)
      → context_on o ps stored ≡ initialized ctx disk
      → (stored ≡ some disk) × (new_context mirror_job ps ≡ some ctx)
  unfolding context_on initialized_with
  context_on_initialized ps none ctx disk h = cc
  context_on_initialized ps (some d) ctx disk h = elim (Option-cases (new_context mirror_job ps)) [
    | inl failed ↦ cc (rw failed at h)
    | inr (c, made) ↦ (cc (rw made at h), cc (rw made at h))
  ]

  -- What a start with an automatic choice has done.
  pub record IsStored (c : MirrorConfig F) (disk disk' : Disk C) (ctx : Context)
      (chosen : Option (List DownloadProvider)) : Type 0 where
    pub first : DownloadProvider
    pub others : List DownloadProvider
    pub selected : chosen ≡ some (first ∷ others)
    pub made : new_context mirror_job (first ∷ others) ≡ some ctx
    pub stored :
        store_latency_test_results o.create_dir_all o.can_write o.to_json c o.now
          (first ∷ others)
          disk
        ≡ some disk'

  initialize_for-IsStored :
      (c : MirrorConfig F) (disk disk' : Disk C) (ctx : Context)
      (chosen : Option (List DownloadProvider))
      → c.mirror_selection_method ≡ auto
      → initialize_for o c disk chosen ≡ initialized ctx disk'
      → IsStored c disk disk' ctx chosen
  unfolding initialize_for store_for
  initialize_for-IsStored c disk disk' ctx none method h = cc
  initialize_for-IsStored c disk disk' ctx (some []) method h = cc
  initialize_for-IsStored c disk disk' ctx (some (p ∷ ps)) method h =
      let (stored, made) = context_on_initialized (p ∷ ps) _ ctx disk' h in
      record {
        first = p;
        others = ps;
        selected = refl;
        made = made;
        stored = sym (ap (λ m. store_for o m c (p ∷ ps) disk) method) ∙ stored;
      }

  -- An automatic choice that yields providers has settings.
  rated_auto :
      (stored : Option Stored) (c : MirrorConfig F) (ps : List DownloadProvider)
      → c.mirror_selection_method ≡ auto
      → rated o stored (mirror_selection c) ≡ some ps
      → (s : MirrorsAutoConfig F) × (mirror_selection c ≡ some (MirrorSelection.auto s))
  unfolding rated mirror_selection selection_by auto_selection
  rated_auto stored c ps method h = elim (Option-cases c.mirrors_auto) [
    | inl missing ↦ cc (rw (method, missing) at h)
    | inr (s, there) ↦ (s, rw (method, there) refl)
  ]

  initialize_for_made :
      (c : MirrorConfig F) (disk disk' : Disk C) (ctx : Context) (p : DownloadProvider)
      (ps : List DownloadProvider)
      → c.mirror_selection_method ≡ auto
      → new_context mirror_job (p ∷ ps) ≡ some ctx
      → store_latency_test_results o.create_dir_all o.can_write o.to_json c o.now (p ∷ ps) disk
        ≡ some disk'
      → made_context (initialize_for o c disk (some (p ∷ ps))) ≡ some ctx
  unfolding initialize_for store_for context_on initialized_with made_context
  initialize_for_made c disk disk' ctx p ps method made stored =
      let kept : store_for o c.mirror_selection_method c (p ∷ ps) disk ≡ some disk' =
        ap (λ m. store_for o m c (p ∷ ps) disk) method ∙ stored in
      ap (λ d. made_context (context_on o (p ∷ ps) d)) kept
      ∙ ap (λ x. made_context (initialized_with x disk')) made

module _ {F I E C : Type 0} (before after : Outside F I E C) where
  last_results_stored :
      (c : MirrorConfig F) (disk disk' : Disk C) (ps : List DownloadProvider)
      → ReadsBack before.to_json after.version_from_json after.results_from_json
      → store_latency_test_results before.create_dir_all before.can_write before.to_json c
          before.now ps disk
        ≡ some disk'
      → last_results after c disk'
        ≡ some (record {
          download_providers = ps;
          is_refresh_required =
              latency_tests_refresh_required after.parse_duration after.parse_from_rfc3339
                after.from_std c after.now_seconds
                (stamped before.now ps);
        })
  unfolding last_results stored_results latency_tests_refresh_required
  last_results_stored c disk disk' ps reads stored =
      let there =
        store_latency_test_results_written before.create_dir_all before.can_write before.to_json c
          before.now ps disk disk' stored in
      let read =
        fetch_download_providers-stamped before.to_json after.version_from_json
          after.results_from_json c before.now ps disk' reads there in
      rw (read, last_results) refl

  -- After a start with mirrors that were chosen automatically, a start with the same settings at which
  -- no endpoint can be reached makes the same job context: the providers are those that the first one
  -- stored. The parser reads back what is written as JSON, and the same files can be written.
  pub initialize_job_context_again :
      (c : MirrorConfig F) (disk disk' : Disk C) (ctx : Context)
      → IsOffline before after
      → c.mirror_selection_method ≡ auto
      → initialize_job_context before c disk ≡ initialized ctx disk'
      → made_context (initialize_job_context after c disk') ≡ some ctx
  unfolding initialize_job_context
  initialize_job_context_again c disk disk' ctx offline method h =
      let first = initialize_for-IsStored before c disk disk' ctx _ method h in
      let ps = first.first ∷ first.others in
      let (s, selection) =
        rated_auto before (last_results before c disk) c ps method first.selected in
      let results = last_results_stored c disk disk' ps offline.reads first.stored in
      let chosen = rated_unreached after _ s offline.unreached in
      let same_providers : rated after (last_results after c disk') (mirror_selection c) ≡ some ps =
        rw results (rw selection chosen) in
      let again =
        store_latency_test_results_again before.create_dir_all before.can_write before.to_json c
          before.now after.now ps ps disk disk' disk' first.stored in
      let d =
        write_file (latency_test_results_file c) (before.to_json (stamped after.now ps)) disk' in
      let stored_again : store_latency_test_results after.create_dir_all after.can_write
            after.to_json c after.now ps disk'
          ≡ some d =
        rw offline.directories (rw offline.writable (rw offline.format again)) in
      ap (λ x. made_context (initialize_for after c disk' x)) same_providers
      ∙ initialize_for_made after c disk' d ctx first.first first.others method first.made
          stored_again

  -- After any start with an automatic choice, also one that took the providers from the last latency test
  -- or tested a limited number of mirrors: as long as the time between tests has not passed since that
  -- start, the next one tests a limited number of mirrors, from the countries of the providers that were
  -- chosen.
  pub test_extent_again :
      (c : MirrorConfig F) (disk disk' : Disk C) (ctx : Context) (num_mirrors : ℕ)
      (country_filter : CountryFilter) (last_check refresh_after : ℕ)
      → ReadsBack before.to_json after.version_from_json after.results_from_json
      → c.mirror_selection_method ≡ auto
      → initialize_job_context before c disk ≡ initialized ctx disk'
      → after.parse_from_rfc3339 before.now ≡ some last_check
      → after.from_std (refresh_latency_tests_after after.parse_duration c) ≡ some refresh_after
      → after.now_seconds ≤ last_check + refresh_after
      → (ps : List DownloadProvider) × (new_context mirror_job ps ≡ some ctx)
        × (test_extent num_mirrors country_filter (last_results after c disk')
            ≡ (limit num_mirrors, get_country_filter ps num_mirrors))
  unfolding initialize_job_context latency_tests_refresh_required is_older test_extent
  test_extent_again c disk disk' ctx num_mirrors country_filter last_check refresh_after reads
        method h stamp duration soon =
      let first = initialize_for-IsStored before c disk disk' ctx _ method h in
      let ps = first.first ∷ first.others in
      let required =
        latency_tests_refresh_required after.parse_duration after.parse_from_rfc3339 after.from_std
          c after.now_seconds (stamped before.now ps) in
      let fresh : required ≡ false = rw stamp (rw duration (ground arith)) in
      (ps, first.made, rw (last_results_stored c disk disk' ps reads first.stored) (rw fresh refl))
