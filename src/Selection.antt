-- ===== src/Selection.antt =====
-- flexo/src/main.rs: the choice of mirrors at the start, from the settings to the providers. What
-- mirror_cache.rs reads from the file of the last latency test is a parameter.
pub mod Start
use flexo.Base.{
  ℕ, zero, suc, ◌+◌, Bool, true, false, List, [], ◌∷◌, map, Option, none, some, take, if◌then◌else◌,
}
use flexo.Base.Text.{Text, codes}
use flexo.Job.{Result, ok, err}
use flexo.Scores.{MirrorResults}
use flexo.Download.{DownloadProvider}
use flexo.Download.Equality.{mirror_job}
use flexo.Context.{JobContext, new_context}
use flexo.Server.{Context}
use flexo.Repos.{default_results}
use flexo.Mirrors.{Mirror, MirrorUrlOption, MirrorsAutoConfig, fetch_providers_from_json_endpoint}
use flexo.Rating.{
  CountryFilter, all_countries, selected_countries, Limit, no_limit, limit, rated_providers_retry,
}

-- The results of the last latency test, and whether they are too old.
pub record Stored : Type 0 where
  pub download_providers : List DownloadProvider
  pub is_refresh_required : Bool

-- `get_country_filter`: the countries of the best mirrors of the last test.
unfoldable pub get_country_filter : List DownloadProvider → ℕ → CountryFilter
get_country_filter prev_rated_providers num_mirrors =
    selected_countries
      (map (λ (m : DownloadProvider). m.country_code) (take num_mirrors prev_rated_providers))

unfoldable pub mirrors_from_cache : Option Stored → Option (List DownloadProvider)
mirrors_from_cache none = none
mirrors_from_cache (some stored) = some stored.download_providers

-- `unwrap_or` of the allowed countries; an empty list is that of all.
abbrev pub country_filter_uncached : List Text → CountryFilter
country_filter_uncached [] = all_countries
country_filter_uncached (c ∷ cs) = selected_countries (c ∷ cs)

-- The result of the first endpoint, or of the first fallback that does not fail.
unfoldable pub fetch_fallbacks :
    {A E : Type 0} → (Text → Result A E) → Result A E → List Text → Result A E
fetch_fallbacks fetch result [] = result
fetch_fallbacks fetch (ok a) (fallback ∷ fallbacks) = ok a
fetch_fallbacks fetch (err e) (fallback ∷ fallbacks) =
    fetch_fallbacks fetch (fetch fallback) fallbacks

-- The limit and the countries of the latency test.
unfoldable pub test_extent : ℕ → CountryFilter → Option Stored → Limit × CountryFilter
unfolding get_country_filter
test_extent num_mirrors country_filter none = (no_limit, country_filter)
test_extent num_mirrors country_filter (some stored) =
    if stored.is_refresh_required
    then (no_limit, country_filter)
    else (limit num_mirrors, get_country_filter stored.download_providers num_mirrors)

abbrev predefined_provider : Text → DownloadProvider
predefined_provider uri = record {
  uri = uri;
  name = uri;
  mirror_results = default_results;
  country_code = codes "Unknown";
}

-- With the predefined mirrors, or with the settings for the automatic choice.
pub data MirrorSelection (F : Type 0) : Type 0 where
  predefined : List Text → MirrorSelection F
  auto : MirrorsAutoConfig F → MirrorSelection F

module _ {F I E : Type 0} (exceeds : F → ℕ → Bool) (relaxed_score : F → F) (scaled : F → ℕ)
    (sort_unstable : List (Mirror F I × MirrorResults) → List (Mirror F I × MirrorResults))
    (measure_latency : ℕ → Text → ℕ → Option MirrorResults) (perform : Text → ℕ → Result Text E)
    (from_json : Text → Result (List (MirrorUrlOption F I)) E) (stored : Option Stored) where
  unfoldable pub rated_mirrors :
      List (Mirror F I) → CountryFilter → MirrorsAutoConfig F → List DownloadProvider
  unfolding test_extent
  rated_mirrors mirror_urls country_filter mirrors_auto =
      let extent = test_extent mirrors_auto.num_mirrors country_filter stored in
      rated_providers_retry exceeds relaxed_score sort_unstable measure_latency mirror_urls
        mirrors_auto extent.1 extent.0

  unfoldable pub rate_or_cached :
      Result (List (Mirror F I)) E → MirrorsAutoConfig F → Option (List DownloadProvider)
  unfolding rated_mirrors mirrors_from_cache
  rate_or_cached (ok mirror_urls) mirrors_auto = some (
      rated_mirrors mirror_urls (country_filter_uncached mirrors_auto.allowed_countries)
        mirrors_auto)
  rate_or_cached (err e) mirrors_auto = mirrors_from_cache stored

  abbrev pub fetch : Text → Result (List (Mirror F I)) E
  fetch = fetch_providers_from_json_endpoint perform from_json scaled

  unfoldable pub fetch_auto : MirrorsAutoConfig F → Option (List DownloadProvider)
  unfolding rate_or_cached fetch_fallbacks
  fetch_auto mirrors_auto =
      rate_or_cached
        (fetch_fallbacks fetch (fetch mirrors_auto.mirrors_status_json_endpoint)
          mirrors_auto.mirrors_status_json_endpoint_fallbacks)
        mirrors_auto

  -- `rated_providers` of main.rs
  unfoldable pub selected_providers : MirrorSelection F → Option (List DownloadProvider)
  unfolding fetch_auto
  selected_providers (predefined uris) = some (map predefined_provider uris)
  selected_providers (auto mirrors_auto) = fetch_auto mirrors_auto
