-- ===== src/Selection/Start.antt =====
-- flexo/src/main.rs: what `fetch_auto` makes of the mirrors that were fetched.
use flexo.Base.{
  ℕ, zero, suc, ◌+◌, ◌≡◌, Bool, List, [], ◌∷◌, Option, none, some, arith, inl, inr, ◌⊎◌,
}
use flexo.Base.Text.{Text}
use flexo.Job.{Result, ok, err}
use flexo.Scores.{MirrorResults}
use flexo.Download.{DownloadProvider}
use flexo.Mirrors.{
  Mirror, MirrorUrlOption, MirrorsAutoConfig, push_new, mirror_list,
  fetch_providers_from_json_endpoint,
}
use flexo.Rating.{
  CountryFilter, Limit, rated_providers_retry, rate_from, settings, unless_empty,
  latency_test_num_attempts,
}
use flexo.Rating.Distinct.{
  IsUnique, HasDistinct, Permutes, push_new-IsUnique, rated_providers-HasDistinct,
}
use flexo.Selection.{
  Stored, fetch_fallbacks, rated_mirrors, rate_or_cached, fetch_auto, fetch, mirrors_from_cache,
}

module _ {F I E : Type 0} (exceeds : F → ℕ → Bool) (relaxed_score : F → F) (scaled : F → ℕ)
    (sort_unstable : List (Mirror F I × MirrorResults) → List (Mirror F I × MirrorResults))
    (measure_latency : ℕ → Text → ℕ → Option MirrorResults) (perform : Text → ℕ → Result Text E)
    (from_json : Text → Result (List (MirrorUrlOption F I)) E) (stored : Option Stored) where
  unless_empty-HasDistinct :
      (ps qs : List DownloadProvider)
      → HasDistinct exceeds relaxed_score sort_unstable ps
      → HasDistinct exceeds relaxed_score sort_unstable qs
      → HasDistinct exceeds relaxed_score sort_unstable (unless_empty ps qs)
  unless_empty-HasDistinct [] qs h k = k
  unless_empty-HasDistinct (p ∷ ps) qs h k = h

  rate_from-HasDistinct :
      (mirrors : List (Mirror F I)) (c : MirrorsAutoConfig F) (f : CountryFilter) (l : Limit)
      (left i : ℕ)
      → Permutes exceeds relaxed_score sort_unstable
      → IsUnique mirrors
      → HasDistinct exceeds relaxed_score sort_unstable
          (rate_from exceeds relaxed_score sort_unstable measure_latency mirrors c f l left i)
  unfolding rate_from
  rate_from-HasDistinct mirrors c f l zero i permutes unique = λ u. omega arith
  rate_from-HasDistinct mirrors c f l (suc left) i permutes unique =
      unless_empty-HasDistinct _ _
        (rated_providers-HasDistinct exceeds relaxed_score sort_unstable (measure_latency i) mirrors
          (settings exceeds relaxed_score sort_unstable c i) f l permutes unique)
        (rate_from-HasDistinct mirrors c f l left (i + 1) permutes unique)

  -- Mirrors, if there are any, that have each URL once.
  abbrev AllUnique : Result (List (Mirror F I)) E → Type 0
  AllUnique (ok mirrors) = IsUnique mirrors
  AllUnique (err e) = Unit

  parsed-AllUnique :
      (parsed : Result (List (MirrorUrlOption F I)) E)
      → AllUnique (elim parsed [
        | err e ↦ err e
        | ok options ↦ ok (push_new [] (mirror_list scaled options))
      ])
  parsed-AllUnique (err e) = tt
  parsed-AllUnique (ok options) =
      push_new-IsUnique [] (mirror_list scaled options) (λ u. omega arith)

  received-AllUnique :
      (json : Result Text E)
      → AllUnique (elim json [
        | err e ↦ err e
        | ok s ↦ elim (from_json s) [
          | err e ↦ err e
          | ok options ↦ ok (push_new [] (mirror_list scaled options))
        ]
      ])
  received-AllUnique (err e) = tt
  received-AllUnique (ok s) = parsed-AllUnique (from_json s)

  abbrev fetched : Text → Result (List (Mirror F I)) E
  fetched =
      fetch exceeds relaxed_score scaled sort_unstable measure_latency perform from_json stored

  fetch-AllUnique : (uri : Text) → AllUnique (fetched uri)
  unfolding fetch_providers_from_json_endpoint
  fetch-AllUnique uri = received-AllUnique _

  fetch_fallbacks-AllUnique :
      (result : Result (List (Mirror F I)) E) (fallbacks : List Text)
      → AllUnique result
      → AllUnique (fetch_fallbacks fetched result fallbacks)
  unfolding fetch_fallbacks
  fetch_fallbacks-AllUnique result [] h = h
  fetch_fallbacks-AllUnique (ok mirrors) (uri ∷ uris) h = h
  fetch_fallbacks-AllUnique (err e) (uri ∷ uris) h =
      fetch_fallbacks-AllUnique (fetched uri) uris (fetch-AllUnique uri)

  -- The results of the last latency test are there, and have no provider twice.
  abbrev pub IsUsable : Option Stored → Type 0
  IsUsable none = ⊥
  IsUsable (some s) = HasDistinct exceeds relaxed_score sort_unstable s.download_providers

  -- The first endpoint that can be reached lists mirrors.
  abbrev pub IsReached : MirrorsAutoConfig F → Type 0
  IsReached c =
      (mirrors : List (Mirror F I)) × (fetch_fallbacks fetched
          (fetched c.mirrors_status_json_endpoint) c.mirrors_status_json_endpoint_fallbacks
        ≡ ok mirrors)

  -- There are providers, and none is there twice.
  abbrev pub IsChosen : Option (List DownloadProvider) → Type 0
  IsChosen none = ⊥
  IsChosen (some ps) = HasDistinct exceeds relaxed_score sort_unstable ps

  cached-IsChosen : (s : Option Stored) → IsUsable s → IsChosen (mirrors_from_cache s)
  unfolding mirrors_from_cache
  cached-IsChosen none usable = usable
  cached-IsChosen (some s) usable = usable

  rate_or_cached-IsChosen :
      (result : Result (List (Mirror F I)) E) (c : MirrorsAutoConfig F)
      → Permutes exceeds relaxed_score sort_unstable
      → AllUnique result
      → ((mirrors : List (Mirror F I)) × (result ≡ ok mirrors)) ⊎ IsUsable stored
      → IsChosen (
          rate_or_cached exceeds relaxed_score scaled sort_unstable measure_latency perform
            from_json stored result c)
  unfolding rate_or_cached rated_mirrors rated_providers_retry
  rate_or_cached-IsChosen (ok mirrors) c permutes unique either =
      rate_from-HasDistinct mirrors c _ _ latency_test_num_attempts 0 permutes unique
  rate_or_cached-IsChosen (err e) c permutes unique (inl (mirrors, same)) = cc
  rate_or_cached-IsChosen (err e) c permutes unique (inr usable) = cached-IsChosen stored usable

  -- With mirrors that are chosen automatically there are providers, none of them twice, whatever the status
  -- page lists, if an endpoint can be reached or else the results of the last latency test are there and
  -- have no provider twice. The sort of the latency tests yields each element as often as it was there.
  pub fetch_auto-IsChosen :
      (c : MirrorsAutoConfig F)
      → Permutes exceeds relaxed_score sort_unstable
      → IsReached c ⊎ IsUsable stored
      → IsChosen (
          fetch_auto exceeds relaxed_score scaled sort_unstable measure_latency perform from_json
            stored c)
  unfolding fetch_auto
  fetch_auto-IsChosen c permutes either =
      rate_or_cached-IsChosen _ c permutes
        (fetch_fallbacks-AllUnique (fetched c.mirrors_status_json_endpoint)
          c.mirrors_status_json_endpoint_fallbacks (fetch-AllUnique c.mirrors_status_json_endpoint))
        either
