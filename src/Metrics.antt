-- ===== src/Metrics.antt =====
-- flexo/src/lib.rs: how often each provider was used and failed, and who is punished and pardoned.
-- The counters are u32 values that wrap, as in a release build.
pub mod Laws
use flexo.Base.{ℕ, ◌+◌, ◌-◌, ◌%◌, ◌^◌, List, [], ◌∷◌, Option, none, some}
use flexo.Base.Text.{Text, Text-discrete}
use flexo.Base.Map.{HashMap, get, insert, modify_or_insert}

pub record ProviderIdentifier : Type 0 where
  pub identifier : Text

unfoldable pub ProviderIdentifier-discrete : Discrete ProviderIdentifier
unfolding Text-discrete
ProviderIdentifier-discrete a b = elim (Text-discrete a.identifier b.identifier) [
  | yes p ↦ yes (λ i. record { identifier = p i })
  | no p ↦ no (λ e. p (λ j. (e j).identifier))
]

pub record ProviderMetrics : Type 0 where
  pub num_usages : ℕ
  pub num_failures : ℕ

abbrev pub u32 : ℕ → ℕ
u32 n = n % 2 ^ 32

-- `ProviderMetrics::default()`
abbrev pub default_metrics : ProviderMetrics
default_metrics = record { num_usages = 0; num_failures = 0 }

abbrev pub Metrics : Type 0
Metrics = HashMap ProviderIdentifier ProviderMetrics

abbrev one_more_failure : ProviderMetrics → ProviderMetrics
one_more_failure p = record p { num_failures = u32 (p.num_failures + 1) }

-- `Provider::punish`
unfoldable pub punish : ProviderIdentifier → Metrics → Metrics
punish id m = modify_or_insert ProviderIdentifier-discrete id one_more_failure default_metrics m

-- the update of the counters at the end of `select_provider`
abbrev one_more_usage : ProviderMetrics → ProviderMetrics
one_more_usage p = record p { num_usages = u32 (p.num_usages + 1) }

unfoldable pub record_usage : ProviderIdentifier → Metrics → Metrics
record_usage id m =
    modify_or_insert ProviderIdentifier-discrete id one_more_usage
      (record { num_usages = 1; num_failures = 0 }) m

-- one round of `pardon`: `num_failures -= 1` on an occupied entry
abbrev one_failure_less : ProviderMetrics → ProviderMetrics
one_failure_less p = record p { num_failures = u32 (p.num_failures + 2 ^ 32 - 1) }

unfoldable pub pardon_one : ProviderIdentifier → Metrics → Metrics
pardon_one id m = elim (get ProviderIdentifier-discrete id m) [
  | none ↦ m
  | some value ↦ insert ProviderIdentifier-discrete id (one_failure_less value) m
]

unfoldable pub pardon : List ProviderIdentifier → Metrics → Metrics
pardon [] m = m
pardon (not_guilty ∷ rest) m = pardon rest (pardon_one not_guilty m)

-- `provider_metrics.get(id).unwrap_or(&default)`
unfoldable pub metric : ProviderIdentifier → Metrics → ProviderMetrics
metric id m = elim (get ProviderIdentifier-discrete id m) [
  | none ↦ default_metrics
  | some value ↦ value
]
