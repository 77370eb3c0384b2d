-- ===== src/Tests/Startup.antt =====
-- The theorems on the start, applied where their hypotheses hold.
use flexo.Base.{
  ℕ, ◌≡◌, ◌≢◌, refl, Bool, true, List, [], ◌∷◌, Option, none, some, arith, contains, drop, ◌==◌,
  inl,
}
use flexo.Base.Text.{Text, codes, text_eq}
use flexo.Job.{ok, err}
use flexo.Guards.{new_guards}
use flexo.Growing.{IoError}
use flexo.Context.{new_context}
use flexo.Server.{Context}
use flexo.Config.{MirrorConfig, auto}
use flexo.Rating.{all_countries, limit, rated_providers_retry, includes_country}
use flexo.Download.{DownloadProvider}
use flexo.Download.Equality.{mirror_job}
use flexo.EnvConfig.{custom_repos_from_env, comma_separated_to_vec}
use flexo.EnvConfig.Load.{
  TomlParser, mirror_config_from_env, mirrors_auto_config_from_env, ◌>>=◌, any_flexo, load_config,
}
use flexo.Startup.{mirror_selection}
use flexo.Startup.Settings.{IsComplete, load_config-IsComplete}
use flexo.Mirrors.{sort, fetch_providers_from_json_endpoint, mirror_url, filter_predicate}
use flexo.Paths.{components, root_dir}
use flexo.Selection.{selected_providers, fetch_fallbacks, test_extent, get_country_filter}
use flexo.MirrorCache.{
  stored_results, fetch_download_providers, store_latency_test_results, refresh_latency_tests_after,
  TimestampedDownloadProviders, Disk, write_file, parent, latency_test_results_file,
}
use flexo.MirrorCache.RoundTrip.{stamped}
use flexo.Startup.{Outside, panicked, initialized, initialize_job_context, last_results}
use flexo.Startup.Initial.{HasSource, CanStore, initialize_job_context-≢-panicked}
use flexo.Startup.Restart.{made_context, IsOffline, initialize_job_context_again, test_extent_again}
use flexo.Tests.Mirrors.{
  exceeds, relaxed_score, scaled, sorted, some_results, measured_results, some_settings,
  status_page, from_json, some_mirror,
}

abbrev some_config : MirrorConfig ℕ
some_config = record {
  cache_directory = codes "/var/cache/flexo/pkg";
  mirrorlist_fallback_file = codes "/var/cache/flexo/state/mirrorlist";
  mirrorlist_latency_test_results_file = some (codes "/r");
  refresh_latency_tests_after = some (codes "8 days");
  port = 7878;
  listen_ip_address = none;
  mirror_selection_method = auto;
  mirrors_predefined = [];
  custom_repo = none;
  low_speed_limit = none;
  low_speed_limit_formatted = none;
  low_speed_time_secs = none;
  connect_timeout = none;
  max_speed_limit = none;
  num_versions_retain = some 3;
  mirrors_auto = some (record some_settings { max_score = 9 });
}

-- Files hold results as they are, in place of JSON; a duration is 700000 seconds.
abbrev online : Outside ℕ ℕ ℕ TimestampedDownloadProviders
online = record {
  exceeds = exceeds;
  relaxed_score = relaxed_score;
  scaled = scaled;
  sort_unstable = sorted;
  measure_latency = λ i. measured_results;
  perform = status_page;
  mirrors_from_json = from_json;
  create_dir_all = λ directory. ok tt;
  can_write = λ path. true;
  to_json = λ t. t;
  version_from_json = λ t. ok (record { version = t.version });
  results_from_json = λ t. ok t;
  parse_duration = λ s. some 700000;
  parse_from_rfc3339 = λ s. some 1000;
  from_std = λ n. some n;
  now = codes "then";
  now_seconds = 1000;
}

abbrev offline : Outside ℕ ℕ ℕ TimestampedDownloadProviders
offline = record online { perform = λ uri n. err n; now = codes "now"; now_seconds = 5000 }

abbrev no_files : Disk TimestampedDownloadProviders
no_files path = err IoError.not_found

abbrev some_provider : DownloadProvider
some_provider = record {
  uri = codes "https://m/";
  name = codes "https://m/";
  mirror_results = some_results;
  country_code = codes "DE";
}

abbrev first_context : Context
first_context = record {
  shared = record {
    guards = new_guards (some_provider ∷ []);
    provider_metrics = [];
    channels = [];
  };
  orders_in_progress = [];
  panic_monitor = [];
}

abbrev stored_files : Disk TimestampedDownloadProviders
stored_files = write_file (codes "/r") (stamped (codes "then") (some_provider ∷ [])) no_files

first_start :
    initialize_job_context online some_config no_files ≡ initialized first_context stored_files
unfolding initialize_job_context selected_providers fetch_providers_from_json_endpoint
    rated_providers_retry stored_results fetch_download_providers mirror_url text_eq
    filter_predicate includes_country store_latency_test_results components new_context contains
first_start = refl

offline-IsOffline : IsOffline online offline
offline-IsOffline = record {
  directories = refl;
  writable = refl;
  format = refl;
  reads = record { version_only = λ t. refl; whole = λ t. refl };
  unreached = λ uri n. (n, refl);
}

online-HasSource :
    HasSource online some_config
      (last_results online some_config no_files)
      (record some_settings { max_score = 9 })
unfolding fetch_providers_from_json_endpoint mirror_url text_eq fetch_fallbacks
online-HasSource = inl (some_mirror ∷ [], refl)

results-CanStore : CanStore online some_config
unfolding components parent latency_test_results_file text_eq
results-CanStore = record {
  directory = root_dir ∷ [];
  in_directory = refl;
  creates = refl;
  writes = refl;
}

initialize_job_context-≢-panicked_example :
    initialize_job_context online some_config no_files ≢ panicked
initialize_job_context-≢-panicked_example =
    initialize_job_context-≢-panicked online some_config (record some_settings { max_score = 9 })
      no_files refl refl (λ p l. refl) results-CanStore online-HasSource

initialize_job_context_again_example :
    made_context (initialize_job_context offline some_config stored_files) ≡ some first_context
initialize_job_context_again_example =
    initialize_job_context_again online offline some_config no_files stored_files first_context
      offline-IsOffline refl first_start

duration_known :
    offline.from_std (refresh_latency_tests_after offline.parse_duration some_config) ≡ some 700000
unfolding refresh_latency_tests_after
duration_known = refl

test_extent_again_example :
    (ps : List DownloadProvider) × (new_context mirror_job ps ≡ some first_context)
    × (test_extent 8 all_countries (last_results offline some_config stored_files)
        ≡ (limit 8, get_country_filter ps 8))
test_extent_again_example =
    test_extent_again online offline some_config no_files stored_files first_context 8 all_countries
      1000 700000 (record { version_only = λ t. refl; whole = λ t. refl }) refl first_start refl
      duration_known (omega arith)

-- A parser that takes what stands behind the equals sign, and 9 for every number.
abbrev lenient : TomlParser ℕ
lenient = record {
  bool_value = λ document. some true;
  integer_value = λ bits document. some 9;
  f64_value = λ document. some 9;
  string_value = λ document. some (drop 8 document);
  strings_value = λ document. some [];
  random_or_sort_value = λ document. some sort;
  method_value = λ document. some auto;
}

abbrev is_blank : ℕ → Bool
is_blank c = c == 32

abbrev variables : Text → Option Text
variables name = some (codes "x")

abbrev quoted : Text
quoted = codes "\"x\""

abbrev env_config : MirrorConfig ℕ
env_config = record {
  cache_directory = quoted;
  mirrorlist_fallback_file = quoted;
  mirrorlist_latency_test_results_file = some quoted;
  refresh_latency_tests_after = some quoted;
  port = 9;
  listen_ip_address = some quoted;
  mirror_selection_method = auto;
  mirrors_predefined = [];
  custom_repo = none;
  low_speed_limit = some 9;
  low_speed_limit_formatted = some quoted;
  low_speed_time_secs = some 9;
  connect_timeout = some 9;
  max_speed_limit = some 9;
  num_versions_retain = some 9;
  mirrors_auto = some (record {
    mirrors_status_json_endpoint = quoted;
    mirrors_status_json_endpoint_fallbacks = quoted ∷ [];
    mirrors_blacklist = [];
    https_required = true;
    ipv4 = true;
    ipv6 = true;
    max_score = 9;
    num_mirrors = 9;
    mirrors_random_or_sort = sort;
    timeout = 9;
    allowed_countries = quoted ∷ [];
  });
}

abbrev keys : List Text
keys = codes "HOME" ∷ codes "FLEXO_PORT" ∷ []

flexo_key : any_flexo keys ≡ true
unfolding any_flexo
flexo_key = refl

env_config_loaded : load_config is_blank lenient variables keys none ≡ some env_config
unfolding load_config mirror_config_from_env ◌>>=◌ mirrors_auto_config_from_env
    custom_repos_from_env comma_separated_to_vec
env_config_loaded = refl

load_config-IsComplete_example :
    IsComplete is_blank lenient variables env_config × (mirror_selection env_config ≢ none)
load_config-IsComplete_example =
    load_config-IsComplete is_blank lenient variables keys none env_config flexo_key
      env_config_loaded
