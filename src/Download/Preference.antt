-- ===== src/Download/Preference.antt =====
-- flexo/src/lib.rs, flexo/src/mirror_flexo.rs: which mirror `select_provider` takes for a cacheable order.
use flexo.Base.{
  ℕ, ◌≤◌, ◌≡◌, refl, sym, ◌∙◌, Bool, true, false, List, none, some, get_elem?, arith, contains,
  Bool-cases, Option-cases, inl, inr,
}
use flexo.Guards.{ProviderChoice, include, ProviderGuard, Selected, get_provider_guard}
use flexo.Guards.Choice.{choice}
use flexo.Metrics.{ProviderIdentifier, ProviderIdentifier-discrete, Metrics, metric}
use flexo.Scores.{DynamicScoreCacheableDownload, latency, ord_cacheable_score}
use flexo.Scores.Preference.{get_provider_guard-IsPreferredChoice}
use flexo.Paths.{DownloadOrder}
use flexo.Download.{DownloadProvider, provider_identifier}
use flexo.Download.Equality.{mirror_job}
use flexo.Order.{
  Shared, Guarded, dynamic_metric, score_unless_excluded, choose_guard, select_provider,
}

abbrev pub MirrorGuard : Type 0
MirrorGuard = ProviderGuard DownloadProvider

-- how often a mirror has failed, and whether the order has tried it before
abbrev pub failures_of : Metrics → MirrorGuard → ℕ
failures_of metrics g = (metric (provider_identifier g.guarded_provider) metrics).num_failures

abbrev pub is_tried : List ProviderIdentifier → MirrorGuard → Bool
is_tried tried g =
    contains ProviderIdentifier-discrete (provider_identifier g.guarded_provider) tried

-- A mirror is not worse than another: no more failures; with as many failures no more uses; with as many
-- uses no more latency.
pub record IsNotWorse (metrics : Metrics) (g k : MirrorGuard) : Type 0 where
  pub failures : failures_of metrics g ≤ failures_of metrics k
  pub usages : failures_of metrics g ≡ failures_of metrics k → g.strong_count ≤ k.strong_count
  pub latencies :
      failures_of metrics g ≡ failures_of metrics k
      → g.strong_count ≡ k.strong_count
      → latency g.guarded_provider.mirror_results ≤ latency k.guarded_provider.mirror_results

abbrev expected_score : Metrics → MirrorGuard → DynamicScoreCacheableDownload
expected_score metrics g = record {
  num_failures = failures_of metrics g;
  num_current_usages = g.strong_count;
  initial_score = g.guarded_provider.mirror_results;
}

module _ (metrics : Metrics) (tried : List ProviderIdentifier) where
  abbrev score_of : DownloadProvider → ℕ → ProviderChoice DynamicScoreCacheableDownload
  score_of = score_unless_excluded mirror_job mirror_job.cacheable_score metrics tried

  score_of-untried :
      (g : MirrorGuard)
      → is_tried tried g ≡ false
      → choice score_of g ≡ include (expected_score metrics g)
  unfolding score_unless_excluded dynamic_metric
  score_of-untried g h = rw h refl

  score_of-eq-include :
      (g : MirrorGuard) (t : DynamicScoreCacheableDownload)
      → choice score_of g ≡ include t
      → (is_tried tried g ≡ false) × (t ≡ expected_score metrics g)
  unfolding score_unless_excluded dynamic_metric
  score_of-eq-include g t h = elim (Bool-cases (is_tried tried g)) [
    | inl again ↦ cc (rw again at h)
    | inr new ↦ (new, cc (rw new at h))
  ]

-- The mirror that is taken, by its guard in the vector.
pub record IsPreferredMirror (tried : List ProviderIdentifier) (s : Shared mirror_job)
    (g : Guarded mirror_job) : Type 0 where
  pub index : ℕ
  pub guard : MirrorGuard
  pub stands : get_elem? s.guards index ≡ some guard
  pub provider : g.provider ≡ guard.guarded_provider
  pub untried : is_tried tried guard ≡ false
  pub preferred :
      (j : ℕ) (k : MirrorGuard)
      → get_elem? s.guards j ≡ some k
      → is_tried tried k ≡ false
      → IsNotWorse s.provider_metrics guard k

chosen-IsPreferredMirror :
    (tried : List ProviderIdentifier) (s : Shared mirror_job) (g : Guarded mirror_job)
    (c : Selected DownloadProvider)
    → get_provider_guard ⦃o = ord_cacheable_score⦄ (score_of s.provider_metrics tried) s.guards
      ≡ some c
    → g.provider ≡ c.provider
    → IsPreferredMirror tried s g
chosen-IsPreferredMirror tried s g c e same =
    let best =
      get_provider_guard-IsPreferredChoice (score_of s.provider_metrics tried) s.guards c e in
    let (new, score) =
      score_of-eq-include s.provider_metrics tried best.guard best.score best.eligible in
    record {
      index = c.index;
      guard = best.guard;
      stands = best.stands;
      provider = same ∙ sym best.provider;
      untried = new;
      preferred = λ j k at fresh.
          let better =
            best.preferred j k (expected_score s.provider_metrics k) at
              (score_of-untried s.provider_metrics tried k fresh) in
          let is = rw score at better in
          record { failures = is.failures; usages = is.usages; latencies = is.latencies };
    }

-- For a cacheable order without a custom provider, `select_provider` takes a mirror of the vector that
-- the order has not tried, and each other mirror that it has not tried has at least as many failures; of
-- those with as many, at least as many guards in use; of those again, at least as much latency. The
-- failures are those of the metrics before, the latency is that of the mirror's latency test.
pub select_provider-IsPreferredMirror :
    (order : DownloadOrder) (tried : List ProviderIdentifier) (s : Shared mirror_job)
    (g : Guarded mirror_job)
    → mirror_job.is_cacheable order ≡ true
    → select_provider mirror_job order none tried s ≡ some g
    → IsPreferredMirror tried s g
unfolding select_provider choose_guard
select_provider-IsPreferredMirror order tried s g cacheable e =
    elim (Option-cases
      (get_provider_guard ⦃o = ord_cacheable_score⦄ (score_of s.provider_metrics tried) s.guards)) [
        | inl nothing ↦ cc (rw (cacheable, nothing, select_provider) at e)
        | inr (c, h) ↦ chosen-IsPreferredMirror tried s g c h (ground arith)
      ]
