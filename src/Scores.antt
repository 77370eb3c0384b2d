-- ===== src/Scores.antt =====
-- flexo/src/mirror_flexo.rs: how remote mirrors are compared. Durations are natural numbers; the
-- subtraction of durations, which panics below 0, is used as the results have it, with the time of the
-- name lookup within the total time.
pub mod Preference
use flexo.Base.{ℕ, ◌-◌, ◌≡◌, Bool, true, false, leb, ltb, arith, if◌then◌else◌}
use flexo.Guards.{Ord}
use flexo.Job.{DynamicProviderMetrics}

pub record MirrorResults : Type 0 where
  pub total_time : ℕ
  pub namelookup_duration : ℕ
  pub connect_duration : ℕ
  pub pretransfer_time : ℕ
  pub starttransfer_time : ℕ

abbrev pub latency : MirrorResults → ℕ
latency m = m.total_time - m.namelookup_duration

unfoldable pub le_results : MirrorResults → MirrorResults → Bool
le_results a b = leb (latency a) (latency b)

pub record DynamicScoreCacheableDownload : Type 0 where
  pub num_failures : ℕ
  pub num_current_usages : ℕ
  pub initial_score : MirrorResults

pub record DynamicScoreUncacheableDownload : Type 0 where
  pub num_failures : ℕ
  pub initial_score : MirrorResults

abbrev pub cacheable_from : DynamicProviderMetrics MirrorResults → DynamicScoreCacheableDownload
cacheable_from m = record {
  num_failures = m.num_failures;
  num_current_usages = m.num_current_usages;
  initial_score = m.initial_score;
}

abbrev pub uncacheable_from : DynamicProviderMetrics MirrorResults → DynamicScoreUncacheableDownload
uncacheable_from m = record { num_failures = m.num_failures; initial_score = m.initial_score }

-- the derived orders, field by field
abbrev lexicographic : ℕ → ℕ → Bool → Bool
lexicographic a b rest = if ltb a b then true else (if ltb b a then false else rest)

unfoldable pub le_cacheable : DynamicScoreCacheableDownload → DynamicScoreCacheableDownload → Bool
unfolding le_results
le_cacheable a b = lexicographic a.num_failures b.num_failures (
    lexicographic a.num_current_usages b.num_current_usages
      (le_results a.initial_score b.initial_score))

unfoldable pub le_uncacheable :
    DynamicScoreUncacheableDownload → DynamicScoreUncacheableDownload → Bool
unfolding le_results
le_uncacheable a b =
    lexicographic a.num_failures b.num_failures (le_results a.initial_score b.initial_score)

pub le_results_total : (a b : MirrorResults) → le_results a b ≡ false → le_results b a ≡ true
unfolding le_results
le_results_total a b h = ground arith

pub le_results_trans :
    (a b c : MirrorResults) → le_results a b ≡ true → le_results b c ≡ true → le_results a c ≡ true
unfolding le_results
le_results_trans a b c h k = ground arith

pub le_cacheable_total :
    (a b : DynamicScoreCacheableDownload) → le_cacheable a b ≡ false → le_cacheable b a ≡ true
unfolding le_cacheable
le_cacheable_total a b h = ground arith

pub le_cacheable_trans :
    (a b c : DynamicScoreCacheableDownload)
    → le_cacheable a b ≡ true
    → le_cacheable b c ≡ true
    → le_cacheable a c ≡ true
unfolding le_cacheable
le_cacheable_trans a b c h k = ground arith

pub le_uncacheable_total :
    (a b : DynamicScoreUncacheableDownload) → le_uncacheable a b ≡ false → le_uncacheable b a ≡ true
unfolding le_uncacheable
le_uncacheable_total a b h = ground arith

pub le_uncacheable_trans :
    (a b c : DynamicScoreUncacheableDownload)
    → le_uncacheable a b ≡ true
    → le_uncacheable b c ≡ true
    → le_uncacheable a c ≡ true
unfolding le_uncacheable
le_uncacheable_trans a b c h k = ground arith

unfoldable pub ord_results : Ord MirrorResults
ord_results = record { le = le_results; le_total = le_results_total; le_trans = le_results_trans }

unfoldable pub ord_cacheable_score : Ord DynamicScoreCacheableDownload
ord_cacheable_score = record {
  le = le_cacheable;
  le_total = le_cacheable_total;
  le_trans = le_cacheable_trans;
}

unfoldable pub ord_uncacheable_score : Ord DynamicScoreUncacheableDownload
ord_uncacheable_score = record {
  le = le_uncacheable;
  le_total = le_uncacheable_total;
  le_trans = le_uncacheable_trans;
}
