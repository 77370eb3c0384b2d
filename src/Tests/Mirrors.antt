-- ===== src/Tests/Mirrors.antt =====
-- The theorems on the choice of mirrors, applied where their hypotheses hold.
use flexo.Base.{
  arith, all, if◌then◌else◌, ℕ, zero, suc, ◌+◌, ◌≡◌, refl, Bool, true, false, List, [], ◌∷◌, Option,
  some, ltb,
}
use flexo.Base.Text.{Text, codes}
use flexo.Job.{Result, ok, err}
use flexo.Scores.{MirrorResults}
use flexo.Mirrors.{Mirror, MirrorUrlOption, MirrorsAutoConfig, https, sort, relax}
use flexo.Rating.{all_countries, no_limit, rated_providers, rated_providers_retry, unless_empty}
use flexo.Mirrors.{try_num_attempts}
use flexo.Mirrors.Fetch.{IsFirst, try_num_attempts-IsFirst}
use flexo.Mirrors.Latency.{LatencyOptions}
use flexo.Rating.Retry.{rated_providers_retry-relax}
use flexo.Config.{CustomRepo}
use flexo.EnvConfig.{custom_repos_from_env}
use flexo.EnvConfig.CustomRepos.{IsWritable, repos_text, custom_repos_from_env-repos_text}

-- Numbers that are natural numbers, and pairs of a mirror and its latency.
abbrev pub Pairs : Type 0
Pairs = List (Mirror ℕ ℕ × MirrorResults)

abbrev pub exceeds : ℕ → ℕ → Bool
exceeds max_score score = ltb max_score score

abbrev pub relaxed_score : ℕ → ℕ
relaxed_score n = n + 3

abbrev pub scaled : ℕ → ℕ
scaled n = n

-- lists of one element are sorted
abbrev pub sorted : Pairs → Pairs
sorted l = l

abbrev pub some_results : MirrorResults
some_results = record {
  total_time = 9;
  namelookup_duration = 2;
  connect_duration = 3;
  pretransfer_time = 4;
  starttransfer_time = 5;
}

abbrev pub measured_results : Text → ℕ → Option MirrorResults
measured_results url timeout = some some_results

abbrev pub some_mirror : Mirror ℕ ℕ
some_mirror = record {
  url = codes "https://m/";
  protocol = https;
  last_sync = codes "today";
  completion_pct = 1;
  delay = 10;
  duration_avg = 1;
  duration_stddev = 1;
  score = 5;
  country_code = codes "DE";
  ipv4 = true;
  ipv6 = true;
}

abbrev pub listed_mirror : MirrorUrlOption ℕ ℕ
listed_mirror = record {
  url = codes "https://m/";
  protocol = some https;
  last_sync = some (codes "today");
  completion_pct = some 1;
  delay = some 10;
  duration_avg = some 1;
  duration_stddev = some 1;
  score = some 5;
  country_code = some (codes "DE");
  ipv4 = some true;
  ipv6 = some true;
}

abbrev pub some_settings : MirrorsAutoConfig ℕ
some_settings = record {
  mirrors_status_json_endpoint = codes "https://status/";
  mirrors_status_json_endpoint_fallbacks = [];
  mirrors_blacklist = [];
  https_required = true;
  ipv4 = true;
  ipv6 = false;
  max_score = 4;
  num_mirrors = 8;
  mirrors_random_or_sort = sort;
  timeout = 350;
  allowed_countries = [];
}

-- an action that fails twice
abbrev third_time : ℕ → Result ℕ ℕ
third_time zero = err 0
third_time (suc zero) = err 1
third_time (suc (suc n)) = ok n

try_num_attempts-IsFirst_example : IsFirst third_time 0 4 (try_num_attempts 5 third_time)
try_num_attempts-IsFirst_example = try_num_attempts-IsFirst 5 third_time (omega arith)

abbrev IsSome : Mirror ℕ ℕ → Type 0
IsSome m = m ≡ some_mirror

-- Every mirror answers with one header; `perform` fails if that is refused.
abbrev answered_headers : LatencyOptions → List Text
answered_headers options = codes "server: nginx" ∷ []

abbrev perform : LatencyOptions → (Text → Bool) → Result MirrorResults ℕ
perform options accept = if all accept (answered_headers options) then ok some_results else err 0

rated_providers_retry-relax_example :
    rated_providers_retry exceeds relaxed_score sorted
      (λ i. measured_results)
      (some_mirror ∷ [])
      some_settings
      all_countries
      no_limit
    ≡ unless_empty
        (rated_providers exceeds relaxed_score sorted measured_results
          (some_mirror ∷ [])
          some_settings
          all_countries
          no_limit)
        (rated_providers exceeds relaxed_score sorted measured_results
          (some_mirror ∷ [])
          (relax relaxed_score some_settings)
          all_countries
          no_limit)
rated_providers_retry-relax_example =
    rated_providers_retry-relax exceeds relaxed_score sorted (λ i. measured_results)
      (some_mirror ∷ []) some_settings all_countries no_limit (λ i. refl)

abbrev pub status_page : Text → ℕ → Result Text ℕ
status_page uri n = ok (codes "[]")

abbrev pub from_json : Text → Result (List (MirrorUrlOption ℕ ℕ)) ℕ
from_json json = ok (listed_mirror ∷ listed_mirror ∷ [])

abbrev some_repo : CustomRepo
some_repo = record { name = codes "archzfs"; url = codes "https://zfs@host/" }

some_repo-IsWritable : IsWritable some_repo
some_repo-IsWritable = record { no_at = refl; name_word = refl; url_word = refl }

custom_repos_from_env-repos_text_example :
    custom_repos_from_env (some (repos_text some_repo (some_repo ∷ [])))
    ≡ some (some_repo ∷ some_repo ∷ [])
custom_repos_from_env-repos_text_example =
    custom_repos_from_env-repos_text some_repo (some_repo ∷ []) some_repo-IsWritable
      (some_repo-IsWritable, tt)
