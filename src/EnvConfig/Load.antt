-- ===== src/EnvConfig/Load.antt =====
-- flexo/src/mirror_config.rs: the settings from environment variables. What the TOML parser makes of a
-- document is a parameter for each type, and so are the variables; `none` is a panic.
use flexo.Base.{ℕ, Bool, true, false, List, [], ◌∷◌, ◌++◌, Option, none, some, if◌then◌else◌}
use flexo.Base.Text.{Text, codes, strip_prefix}
use flexo.Mirrors.{MirrorsAutoConfig, MirrorsRandomOrSort}
use flexo.Config.{MirrorConfig, MirrorSelectionMethod, auto, predefined}
use flexo.EnvConfig.{comma_separated_to_vec, custom_repos_from_env}

infixl 5 ◌>>=◌
unfoldable pub ◌>>=◌ : {A B : Type 0} → Option A → (A → Option B) → Option B
none >>= f = none
some a >>= f = f a

-- What `toml::from_str` of a `DValue` answers.
pub record TomlParser (F : Type 0) : Type 0 where
  pub bool_value : Text → Option Bool
  pub integer_value : ℕ → Text → Option ℕ
  pub f64_value : Text → Option F
  pub string_value : Text → Option Text
  pub strings_value : Text → Option (List Text)
  pub random_or_sort_value : Text → Option MirrorsRandomOrSort
  pub method_value : Text → Option MirrorSelectionMethod

unfoldable pub quote_str : Text → Text
quote_str s = codes "\"" ++ s ++ codes "\""

-- the default of `toml_value_from_str`
abbrev pub unquoted : Text → Text
unquoted s = s

abbrev pub default_json_uri : Text
default_json_uri = codes "https://archlinux.org/mirrors/status/json/"

-- A variable that is there has to be well formed.
unfoldable pub parse_env_toml :
    {T : Type 0}
    → (Text → Option Text)
    → (Text → Text)
    → (Text → Option T)
    → Text
    → Option (Option T)
parse_env_toml var toml_value_from_str from_str s = elim (var s) [
  | none ↦ some none
  | some env_var ↦ elim (from_str (codes "value = " ++ toml_value_from_str env_var)) [
    | none ↦ none
    | some value ↦ some (some value)
  ]
]

-- `unwrap` of what a variable gives
unfoldable pub required : {T : Type 0} → Option (Option T) → Option T
required none = none
required (some value) = value

abbrev unwrap_or : {T : Type 0} → Option T → T → T
unwrap_or none d = d
unwrap_or (some t) d = t

module _ {F : Type 0} (is_whitespace : ℕ → Bool) (toml : TomlParser F)
    (var : Text → Option Text) where
  abbrev string_var : Text → Option (Option Text)
  string_var s = parse_env_toml var quote_str toml.string_value s

  abbrev bool_var : Text → Option (Option Bool)
  bool_var s = parse_env_toml var unquoted toml.bool_value s

  -- an integer of so many bits
  abbrev integer_var : ℕ → Text → Option (Option ℕ)
  integer_var bits s = parse_env_toml var unquoted (toml.integer_value bits) s

  abbrev strings_var : Text → Option (Option (List Text))
  strings_var s = parse_env_toml var unquoted toml.strings_value s

  abbrev list_or_default : Option Text → List Text
  list_or_default none = []
  list_or_default (some s) = comma_separated_to_vec is_whitespace s

  unfoldable pub mirrors_auto_config_from_env : Option (MirrorsAutoConfig F)
  unfolding parse_env_toml required quote_str
  mirrors_auto_config_from_env = do
    https_required ← required (bool_var (codes "FLEXO_MIRRORS_AUTO_HTTPS_REQUIRED"))
    ipv4 ← required (bool_var (codes "FLEXO_MIRRORS_AUTO_IPV4"))
    ipv6 ← required (bool_var (codes "FLEXO_MIRRORS_AUTO_IPV6"))
    max_score ←
        required (parse_env_toml var unquoted toml.f64_value (codes "FLEXO_MIRRORS_AUTO_MAX_SCORE"))
    num_mirrors ← required (integer_var 64 (codes "FLEXO_MIRRORS_AUTO_NUM_MIRRORS"))
    random_or_sort ← required (
        parse_env_toml var quote_str toml.random_or_sort_value
          (codes "FLEXO_MIRRORS_AUTO_MIRRORS_RANDOM_OR_SORT"))
    timeout ← required (integer_var 64 (codes "FLEXO_MIRRORS_AUTO_TIMEOUT"))
    endpoint ← string_var (codes "FLEXO_MIRRORS_AUTO_MIRRORS_STATUS_JSON_ENDPOINT")
    fallbacks ← string_var (codes "FLEXO_MIRRORS_AUTO_MIRRORS_STATUS_JSON_ENDPOINT_FALLBACKS")
    allowed ← string_var (codes "FLEXO_MIRRORS_AUTO_ALLOWED_COUNTRIES")
    blacklist ← strings_var (codes "FLEXO_MIRRORS_AUTO_MIRRORS_BLACKLIST")
    some (record {
      mirrors_status_json_endpoint = unwrap_or endpoint default_json_uri;
      mirrors_status_json_endpoint_fallbacks = list_or_default fallbacks;
      mirrors_blacklist = unwrap_or blacklist [];
      https_required = https_required;
      ipv4 = ipv4;
      ipv6 = ipv6;
      max_score = max_score;
      num_mirrors = num_mirrors;
      mirrors_random_or_sort = random_or_sort;
      timeout = timeout;
      allowed_countries = list_or_default allowed;
    })

  -- The settings of the automatic choice are read only for that choice.
  unfoldable pub mirrors_auto_for : MirrorSelectionMethod → Option (Option (MirrorsAutoConfig F))
  mirrors_auto_for auto = elim mirrors_auto_config_from_env [ none ↦ none | some c ↦ some (some c) ]
  mirrors_auto_for predefined = some none

  unfoldable pub mirror_config_from_env : Option (MirrorConfig F)
  unfolding parse_env_toml required quote_str mirrors_auto_for
  mirror_config_from_env = do
    cache_directory ← required (string_var (codes "FLEXO_CACHE_DIRECTORY"))
    fallback_file ← required (string_var (codes "FLEXO_MIRRORLIST_FALLBACK_FILE"))
    results_file ← string_var (codes "FLEXO_MIRRORLIST_LATENCY_TEST_RESULTS_FILE")
    listen_ip_address ← string_var (codes "FLEXO_LISTEN_IP_ADDRESS")
    port ← required (integer_var 16 (codes "FLEXO_PORT"))
    method ←
        required
          (parse_env_toml var quote_str toml.method_value (codes "FLEXO_MIRROR_SELECTION_METHOD"))
    mirrors_predefined ← required (strings_var (codes "FLEXO_MIRRORS_PREDEFINED"))
    connect_timeout ← integer_var 64 (codes "FLEXO_CONNECT_TIMEOUT")
    low_speed_limit ← integer_var 32 (codes "FLEXO_LOW_SPEED_LIMIT")
    limit_formatted ← string_var (codes "FLEXO_LOW_SPEED_LIMIT_FORMATTED")
    low_speed_time_secs ← integer_var 64 (codes "FLEXO_LOW_SPEED_TIME_SECS")
    max_speed_limit ← integer_var 64 (codes "FLEXO_MAX_SPEED_LIMIT")
    refresh_after ← string_var (codes "FLEXO_REFRESH_LATENCY_TESTS_AFTER")
    custom_repo_env ← string_var (codes "FLEXO_CUSTOM_REPO")
    num_versions_retain ← integer_var 32 (codes "FLEXO_NUM_VERSIONS_RETAIN")
    mirrors_auto ← mirrors_auto_for method
    some (record {
      cache_directory = cache_directory;
      mirrorlist_fallback_file = fallback_file;
      mirrorlist_latency_test_results_file = results_file;
      refresh_latency_tests_after = refresh_after;
      port = port;
      listen_ip_address = listen_ip_address;
      mirror_selection_method = method;
      mirrors_predefined = mirrors_predefined;
      custom_repo = custom_repos_from_env custom_repo_env;
      low_speed_limit = low_speed_limit;
      low_speed_limit_formatted = limit_formatted;
      low_speed_time_secs = low_speed_time_secs;
      connect_timeout = connect_timeout;
      max_speed_limit = max_speed_limit;
      num_versions_retain = num_versions_retain;
      mirrors_auto = mirrors_auto;
    })

abbrev has_flexo_prefix : Text → Bool
has_flexo_prefix key = elim (strip_prefix (codes "FLEXO_") key) [ none ↦ false | some rest ↦ true ]

-- `vars().any`
unfoldable pub any_flexo : List Text → Bool
unfolding strip_prefix
any_flexo [] = false
any_flexo (key ∷ keys) = let rest = any_flexo keys in if has_flexo_prefix key then true else rest

-- `from_toml` is the configuration file, if it can be read and is well formed.
unfoldable pub load_config :
    {F : Type 0}
    → (ℕ → Bool)
    → TomlParser F
    → (Text → Option Text)
    → List Text
    → Option (MirrorConfig F)
    → Option (MirrorConfig F)
unfolding any_flexo
load_config is_whitespace toml var keys from_toml =
    if any_flexo keys then mirror_config_from_env is_whitespace toml var else from_toml
