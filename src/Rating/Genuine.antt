-- ===== src/Rating/Genuine.antt =====
-- The latency tests that count.
use flexo.Base.{
  ℕ, ◌≡◌, ◌≢◌, Bool, true, false, List, [], ◌∷◌, ◌++◌, map, Option, some, All, NotIn, all, ◌⊎◌,
}
use flexo.Base.Text.{Text, codes}
use flexo.Job.{Result, err}
use flexo.Scores.{MirrorResults}
use flexo.Download.{DownloadProvider}
use flexo.Transfer.{to_ascii_lowercase}
use flexo.Mirrors.{Mirror, http, https, MirrorsAutoConfig}
use flexo.Mirrors.Latency.{LatencyOptions, latency_options, measure_latency, unless_failed}
use flexo.Rating.{CountryFilter, all_countries, selected_countries}

-- The line says something else than `server: cloudflare`, whatever its case.
abbrev pub NotCloudflare : Text → Type 0
NotCloudflare header = map to_ascii_lowercase header ≢ codes "server: cloudflare" ++ 13 ∷ 10 ∷ []

-- The country is one of those selected.
abbrev pub IsSelected : CountryFilter → Text → Type 0
IsSelected all_countries country_code = Unit
IsSelected (selected_countries country_codes) country_code = ¬ NotIn country_code country_codes

-- What the settings ask of a mirror.
pub record Meets {F I : Type 0} (exceeds : F → ℕ → Bool) (c : MirrorsAutoConfig F) (m : Mirror F I)
    : Type 0 where
  pub secure : c.https_required ≡ true → m.protocol ≡ https
  pub ipv4 : c.ipv4 ≡ true → m.ipv4 ≡ true
  pub ipv6 : c.ipv6 ≡ true → m.ipv6 ≡ true
  pub score : exceeds c.max_score m.score ≡ false
  pub listed : NotIn m.url c.mirrors_blacklist

module _ {E : Type 0} (perform : LatencyOptions → (Text → Bool) → Result MirrorResults E)
    (headers : LatencyOptions → List Text) where
  -- libcurl gives a transfer up when the header function refuses a header; these headers are received.
  abbrev pub Aborts : Type 0
  Aborts =
      (options : LatencyOptions) (accept : Text → Bool)
      → all accept (headers options) ≡ false
      → (e : E) × (perform options accept ≡ err e)

  -- The latency test of `rated_providers`.
  abbrev pub latency_test : Text → ℕ → Option MirrorResults
  latency_test url timeout = unless_failed (measure_latency perform url timeout)

  -- No header of the mirror at a URL is, in lower case, that of Cloudflare.
  abbrev pub IsGenuine : Text → ℕ → Type 0
  IsGenuine url timeout = All NotCloudflare (headers (latency_options url timeout))

  -- The mirror that a provider stands for, with all that holds of it.
  pub record IsFromGenuine {F I : Type 0} (exceeds : F → ℕ → Bool) (c : MirrorsAutoConfig F)
      (f : CountryFilter) (P : Mirror F I → Type 0) (p : DownloadProvider) : Type 0 where
    pub mirror : Mirror F I
    pub required : P mirror
    pub protocol : (mirror.protocol ≡ http) ⊎ (mirror.protocol ≡ https)
    pub settings : Meets exceeds c mirror
    pub country : IsSelected f mirror.country_code
    pub same_uri : p.uri ≡ mirror.url
    pub same_country : p.country_code ≡ mirror.country_code
    pub tested : latency_test mirror.url c.timeout ≡ some p.mirror_results
    pub genuine : IsGenuine mirror.url c.timeout
