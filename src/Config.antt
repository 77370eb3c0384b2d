-- ===== src/Config.antt =====
-- flexo/src/mirror_config.rs: the settings and the low speed limits. The regular expression of `parse_bandwidth` and the
-- lower case of a string are parameters.
pub mod Units
use flexo.Base.{ℕ, ◌*◌, ◌%◌, ◌/◌, ◌^◌, Bool, true, false, List, Option, none, some, if◌then◌else◌}
use flexo.Base.Text.{Text, codes, text_eq, strip_suffix}
use flexo.Metrics.{u32}
use flexo.Mirrors.{MirrorsAutoConfig}

pub record CustomRepo : Type 0 where
  pub name : Text
  pub url : Text

pub data MirrorSelectionMethod : Type 0 where
  auto predefined : MirrorSelectionMethod

-- The type of the maximal score, an f64, is a parameter.
pub record MirrorConfig (F : Type 0) : Type 0 where
  pub cache_directory : Text
  pub mirrorlist_fallback_file : Text
  pub mirrorlist_latency_test_results_file : Option Text
  pub refresh_latency_tests_after : Option Text
  pub port : ℕ
  pub listen_ip_address : Option Text
  pub mirror_selection_method : MirrorSelectionMethod
  pub mirrors_predefined : List Text
  pub custom_repo : Option (List CustomRepo)
  pub low_speed_limit : Option ℕ
  pub low_speed_limit_formatted : Option Text
  pub low_speed_time_secs : Option ℕ
  pub connect_timeout : Option ℕ
  pub max_speed_limit : Option ℕ
  pub num_versions_retain : Option ℕ
  pub mirrors_auto : Option (MirrorsAutoConfig F)

pub data LowSpeedConfiguration : Type 0 where
  configured_by_user : ℕ → LowSpeedConfiguration
  sensible_minimum_fallback : ℕ → LowSpeedConfiguration

unfoldable pub multiplier : Text → Option ℕ
unfolding text_eq
multiplier si_prefix =
    if text_eq si_prefix (codes "")
    then some 1
    else (if text_eq si_prefix (codes "ki")
        then some 1024
        else (if text_eq si_prefix (codes "mi")
            then some (1024 * 1024)
            else (if text_eq si_prefix (codes "gi")
                then some (1024 * 1024 * 1024)
                else (if text_eq si_prefix (codes "k")
                    then some 1000
                    else (if text_eq si_prefix (codes "m")
                        then some (1000 * 1000)
                        else (if text_eq si_prefix (codes "g")
                            then some (1000 * 1000 * 1000)
                            else none))))))

-- the result for a prefix, of bits or of bytes
unfoldable pub in_bytes : ℕ → Bool → Option ℕ → Option ℕ
in_bytes bandwidth_value is_bits_not_bytes none = none
in_bytes bandwidth_value true (some m) = some (u32 (bandwidth_value * m) / 8)
in_bytes bandwidth_value false (some m) = some (u32 (bandwidth_value * m))

-- The product is a u32, which wraps in a release build.
unfoldable pub parse_si_unit : ℕ → Text → Option ℕ
unfolding multiplier in_bytes strip_suffix
parse_si_unit bandwidth_value si_unit = elim (strip_suffix (codes "bit") si_unit) [
  | some si_prefix ↦ in_bytes bandwidth_value true (multiplier si_prefix)
  | none ↦ elim (strip_suffix (codes "b") si_unit) [
    | some si_prefix ↦ in_bytes bandwidth_value false (multiplier si_prefix)
    | none ↦ none
  ]
]

module _ (captures : Text → Option (Text × Text)) (parse_u32 : Text → Option ℕ)
    (to_lowercase : Text → Text) where
  unfoldable pub parse_bandwidth : Text → Option ℕ
  parse_bandwidth s = elim (captures s) [
    | none ↦ none
    | some caps ↦ elim (parse_u32 caps.0) [
      | none ↦ none
      | some numeric_value ↦ parse_si_unit numeric_value (to_lowercase caps.1)
    ]
  ]

  unfoldable pub low_speed_limit : {F : Type 0} → MirrorConfig F → Option ℕ
  low_speed_limit config = elim config.low_speed_limit_formatted [
    | some limit ↦ parse_bandwidth limit
    | none ↦ config.low_speed_limit
  ]

  unfoldable pub effective_low_speed_limit : {F : Type 0} → MirrorConfig F → LowSpeedConfiguration
  effective_low_speed_limit config = elim (low_speed_limit config) [
    | none ↦ sensible_minimum_fallback 1
    | some limit ↦ configured_by_user limit
  ]

unfoldable pub effective_low_speed_time_secs : {F : Type 0} → MirrorConfig F → LowSpeedConfiguration
effective_low_speed_time_secs config = elim config.low_speed_time_secs [
  | none ↦ sensible_minimum_fallback 5
  | some time_secs ↦ configured_by_user time_secs
]
