-- ===== src/Metrics/Laws.antt =====
-- How the failure counts move.
use flexo.Base.{
  ℕ, ◌+◌, ◌-◌, ◌^◌, ◌<◌, ◌≡◌, List, [], ◌∷◌, true, false, Option, none, some, arith, ite,
  Option-cases, All, All-mono, inl, inr,
}
use flexo.Base.Map.{get, get-insert, get-modify_or_insert}
use flexo.Metrics.{
  ProviderIdentifier, ProviderIdentifier-discrete, ProviderMetrics, Metrics, default_metrics, u32,
  punish, record_usage, pardon_one, pardon, metric, one_more_failure, one_failure_less,
  one_more_usage,
}

-- the entry of a provider
abbrev pub entry : ProviderIdentifier → Metrics → Option ProviderMetrics
entry = get ProviderIdentifier-discrete

abbrev pub IsKnown : ProviderIdentifier → Metrics → Type 0
IsKnown id m = elim (entry id m) [ none ↦ false | some _ ↦ true ] ≡ true

abbrev pub failures : ProviderIdentifier → Metrics → ℕ
failures k m = (metric k m).num_failures

abbrev pub times : ProviderIdentifier → List ProviderIdentifier → ℕ
times k [] = 0
times k (id ∷ ids) = ite (ProviderIdentifier-discrete k id) 1 0 + times k ids

pub failures-record_usage :
    (k id : ProviderIdentifier) (m : Metrics) → failures k (record_usage id m) ≡ failures k m
unfolding metric record_usage
failures-record_usage k id m = ground (
  arith,
  get-modify_or_insert ProviderIdentifier-discrete k id one_more_usage
      (record { num_usages = 1; num_failures = 0 }) m,
)

pub record_usage-IsKnown :
    (k id : ProviderIdentifier) (m : Metrics) → IsKnown k m → IsKnown k (record_usage id m)
unfolding record_usage
record_usage-IsKnown k id m h = ground (
  arith,
  get-modify_or_insert ProviderIdentifier-discrete k id one_more_usage
      (record { num_usages = 1; num_failures = 0 }) m,
)

pub record_usage-IsKnown_self :
    (id : ProviderIdentifier) (m : Metrics) → IsKnown id (record_usage id m)
unfolding record_usage
record_usage-IsKnown_self id m = ground (
  arith,
  get-modify_or_insert ProviderIdentifier-discrete id id one_more_usage
      (record { num_usages = 1; num_failures = 0 }) m,
)

pub punish-IsKnown :
    (k id : ProviderIdentifier) (m : Metrics) → IsKnown k m → IsKnown k (punish id m)
unfolding punish
punish-IsKnown k id m h = ground (
  arith,
  get-modify_or_insert ProviderIdentifier-discrete k id one_more_failure default_metrics m,
)

pub failures-punish :
    (k id : ProviderIdentifier) (m : Metrics)
    → IsKnown id m
    → failures k (punish id m)
      ≡ ite (ProviderIdentifier-discrete k id) (u32 (failures k m + 1)) (failures k m)
unfolding metric punish
failures-punish k id m h = ground (
  arith,
  get-modify_or_insert ProviderIdentifier-discrete k id one_more_failure default_metrics m,
)

-- A provider with no entry gets one, and its first failure is not counted.
pub failures-punish_unknown :
    (id : ProviderIdentifier) (m : Metrics) → entry id m ≡ none → failures id (punish id m) ≡ 0
unfolding metric punish
failures-punish_unknown id m h = ground (
  arith,
  get-modify_or_insert ProviderIdentifier-discrete id id one_more_failure default_metrics m,
)

pub punish-IsKnown_self : (id : ProviderIdentifier) (m : Metrics) → IsKnown id (punish id m)
unfolding punish
punish-IsKnown_self id m = ground (
  arith,
  get-modify_or_insert ProviderIdentifier-discrete id id one_more_failure default_metrics m,
)

pub failures-pardon_one :
    (k id : ProviderIdentifier) (m : Metrics)
    → IsKnown id m
    → failures k (pardon_one id m)
      ≡ ite (ProviderIdentifier-discrete k id) (u32 (failures k m + 2 ^ 32 - 1)) (failures k m)
unfolding metric pardon_one
failures-pardon_one k id m h = elim (Option-cases (entry id m)) [
  | inl e ↦ cc (rw e at h)
  | inr (p, e) ↦ ground (arith, get-insert ProviderIdentifier-discrete k id (one_failure_less p) m)
]

pub pardon_one-IsKnown :
    (k id : ProviderIdentifier) (m : Metrics) → IsKnown k m → IsKnown k (pardon_one id m)
unfolding pardon_one
pardon_one-IsKnown k id m h = elim (Option-cases (entry id m)) [
  | inl e ↦ rw (e, pardon_one) h
  | inr (p, e) ↦ ground (arith, get-insert ProviderIdentifier-discrete k id (one_failure_less p) m)
]

-- one round, modulo 2 ^ 32
pardon_one_step :
    (k id : ProviderIdentifier) (m : Metrics)
    → IsKnown id m
    → u32 (failures k (pardon_one id m) + ite (ProviderIdentifier-discrete k id) 1 0)
      ≡ u32 (failures k m)
pardon_one_step k id m h = ground (arith, failures-pardon_one k id m)

-- Pardoning takes back one failure for each time that a provider is listed, modulo 2 ^ 32.
pub failures-pardon :
    (k : ProviderIdentifier) (ids : List ProviderIdentifier) (m : Metrics)
    → All (λ id. IsKnown id m) ids
    → u32 (failures k (pardon ids m) + times k ids) ≡ u32 (failures k m)
unfolding pardon
failures-pardon k [] m h = omega arith
failures-pardon k (id ∷ ids) m (h, hs) = omega (
  arith,
  pardon_one_step k id m h,
  failures-pardon k ids (pardon_one id m) (All-mono ids (λ k. pardon_one-IsKnown k id m) hs),
)

abbrev pub IsBounded : Metrics → Type 0
IsBounded m = (k : ProviderIdentifier) → failures k m < 2 ^ 32

pardon_one-IsBounded :
    (id : ProviderIdentifier) (m : Metrics)
    → IsKnown id m
    → IsBounded m
    → IsBounded (pardon_one id m)
pardon_one-IsBounded id m h b k = ground (arith, failures-pardon_one k id m h, b k)

pardon-IsBounded :
    (ids : List ProviderIdentifier) (m : Metrics)
    → All (λ id. IsKnown id m) ids
    → IsBounded m
    → IsBounded (pardon ids m)
unfolding pardon
pardon-IsBounded [] m h b = b
pardon-IsBounded (id ∷ ids) m (h, hs) b =
    pardon-IsBounded ids (pardon_one id m) (All-mono ids (λ k. pardon_one-IsKnown k id m) hs)
      (pardon_one-IsBounded id m h b)

-- Pardoning gives back exactly what was punished.
pub failures-pardon_bounded :
    (k : ProviderIdentifier) (ids : List ProviderIdentifier) (m : Metrics) (n : ℕ)
    → All (λ id. IsKnown id m) ids
    → IsBounded m
    → n < 2 ^ 32
    → failures k m ≡ u32 (n + times k ids)
    → failures k (pardon ids m) ≡ n
failures-pardon_bounded k ids m n h b small e =
    omega (arith, failures-pardon k ids m h, pardon-IsBounded ids m h b k)
