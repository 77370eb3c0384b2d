-- ===== src/Rating.antt =====
-- flexo/src/mirror_flexo.rs and flexo/src/main.rs: from the mirrors that were fetched to the providers of the
-- job context. A latency test is a parameter; so is the sort that libraries do not promise to be stable.
pub mod Counts
pub mod Distinct
pub mod Allowed
pub mod Genuine
pub mod Retry
use flexo.Base.{
  ℕ, zero, suc, ◌+◌, Bool, true, false, not, ◌&&◌, ◌||◌, List, [], ◌∷◌, ◌++◌, map, Option, none,
  some, leb, any, take, keep_if, if◌then◌else◌,
}
use flexo.Base.Text.{Text, codes, text_eq}
use flexo.Job.{Result, ok, err}
use flexo.Scores.{MirrorResults}
use flexo.Download.{DownloadProvider}
use flexo.Download.Equality.{mirror_job}
use flexo.Context.{JobContext, new_context}
use flexo.Repos.{default_results}
use flexo.Mirrors.{Mirror, MirrorsAutoConfig, is_http, is_https, filter_predicate, relax}

pub data CountryFilter : Type 0 where
  all_countries : CountryFilter
  selected_countries : List Text → CountryFilter

unfoldable pub includes_country : CountryFilter → Text → Bool
includes_country all_countries country_code = true
includes_country (selected_countries country_codes) country_code =
    any (λ c. text_eq c country_code) country_codes

pub data Limit : Type 0 where
  no_limit : Limit
  limit : ℕ → Limit

abbrev pub latency_test_num_attempts : ℕ
latency_test_num_attempts = 5

module _ {A : Type 0} where
  abbrev pub limited : Limit → List A → List A
  limited no_limit xs = xs
  limited (limit l) xs = take l xs

abbrev pub provider_of : {F I : Type 0} → Mirror F I × MirrorResults → DownloadProvider
provider_of (m, results) = record {
  uri = m.url;
  name = m.url;
  mirror_results = results;
  country_code = m.country_code;
}

abbrev pub unless_empty : List DownloadProvider → List DownloadProvider → List DownloadProvider
unless_empty [] rest = rest
unless_empty (p ∷ ps) rest = p ∷ ps

module _ {F I : Type 0} (exceeds : F → ℕ → Bool) (relaxed_score : F → F)
    (sort_unstable : List (Mirror F I × MirrorResults) → List (Mirror F I × MirrorResults)) where
  -- The stable sort by the score.
  unfoldable pub insert_by_score : Mirror F I → List (Mirror F I) → List (Mirror F I)
  insert_by_score m [] = m ∷ []
  insert_by_score m (k ∷ ks) =
      let rest = insert_by_score m ks in if leb m.score k.score then m ∷ k ∷ ks else k ∷ rest

  unfoldable pub sort_by_score : List (Mirror F I) → List (Mirror F I)
  unfolding insert_by_score
  sort_by_score [] = []
  sort_by_score (m ∷ ms) = insert_by_score m (sort_by_score ms)

  -- the three filters
  unfoldable pub candidates :
      MirrorsAutoConfig F → CountryFilter → List (Mirror F I) → List (Mirror F I)
  candidates mirrors_auto country_filter ms =
      keep_if (λ m. includes_country country_filter m.country_code)
        (keep_if (filter_predicate exceeds mirrors_auto)
          (keep_if (λ m. is_http m.protocol || is_https m.protocol) ms))

  -- The mirrors whose latency test succeeds, with what it measured.
  unfoldable pub measured :
      (Text → ℕ → Option MirrorResults) → ℕ → List (Mirror F I) → List (Mirror F I × MirrorResults)
  measured measure_latency timeout [] = []
  measured measure_latency timeout (m ∷ ms) =
      let rest = measured measure_latency timeout ms in
      elim (measure_latency m.url timeout) [ none ↦ rest | some results ↦ (m, results) ∷ rest ]

  -- `rated_providers` of mirror_flexo.rs
  unfoldable pub rated_providers :
      (Text → ℕ → Option MirrorResults)
      → List (Mirror F I)
      → MirrorsAutoConfig F
      → CountryFilter
      → Limit
      → List DownloadProvider
  unfolding sort_by_score candidates measured
  rated_providers measure_latency mirrors mirrors_auto country_filter l = map provider_of (
      sort_unstable (
        measured measure_latency mirrors_auto.timeout
          (limited l (candidates mirrors_auto country_filter (sort_by_score mirrors)))))

  -- The settings of the i-th attempt.
  abbrev pub settings : MirrorsAutoConfig F → ℕ → MirrorsAutoConfig F
  settings mirrors_auto zero = mirrors_auto
  settings mirrors_auto (suc i) = relax relaxed_score mirrors_auto

  -- The attempts from the i-th on; each has its own latency tests.
  unfoldable pub rate_from :
      (ℕ → Text → ℕ → Option MirrorResults)
      → List (Mirror F I)
      → MirrorsAutoConfig F
      → CountryFilter
      → Limit
      → ℕ
      → ℕ
      → List DownloadProvider
  unfolding rated_providers
  rate_from measure_latency mirrors mirrors_auto country_filter l zero i = []
  rate_from measure_latency mirrors mirrors_auto country_filter l (suc left) i =
      unless_empty
        (rated_providers (measure_latency i) mirrors (settings mirrors_auto i) country_filter l)
        (rate_from measure_latency mirrors mirrors_auto country_filter l left (i + 1))

  unfoldable pub rated_providers_retry :
      (ℕ → Text → ℕ → Option MirrorResults)
      → List (Mirror F I)
      → MirrorsAutoConfig F
      → CountryFilter
      → Limit
      → List DownloadProvider
  unfolding rate_from
  rated_providers_retry measure_latency mirrors mirrors_auto country_filter l =
      rate_from measure_latency mirrors mirrors_auto country_filter l latency_test_num_attempts 0
