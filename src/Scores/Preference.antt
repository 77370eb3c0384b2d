-- ===== src/Scores/Preference.antt =====
-- flexo/src/mirror_flexo.rs: the order of the scores for cacheable orders.
use flexo.Base.{ℕ, ◌≤◌, ◌≡◌, true, List, some, get_elem?, arith}
use flexo.Guards.{ProviderChoice, include, ProviderGuard, Selected, get_provider_guard}
use flexo.Guards.Choice.{choice, get_provider_guard-IsBest}
use flexo.Scores.{
  DynamicScoreCacheableDownload, latency, le_results, le_cacheable, ord_cacheable_score,
}

-- No more failures; among as many failures no more uses; among as many uses no more latency.
pub record IsPreferred (s t : DynamicScoreCacheableDownload) : Type 0 where
  pub failures : s.num_failures ≤ t.num_failures
  pub usages : s.num_failures ≡ t.num_failures → s.num_current_usages ≤ t.num_current_usages
  pub latencies :
      s.num_failures ≡ t.num_failures
      → s.num_current_usages ≡ t.num_current_usages
      → latency s.initial_score ≤ latency t.initial_score

le_cacheable-IsPreferred :
    (s t : DynamicScoreCacheableDownload) → le_cacheable s t ≡ true → IsPreferred s t
unfolding le_cacheable le_results
le_cacheable-IsPreferred s t h = record {
  failures = ground arith;
  usages = λ e. ground arith;
  latencies = λ e k. ground arith;
}

module _ {P : Type 0} (mirror_score : P → ℕ → ProviderChoice DynamicScoreCacheableDownload) where
  pub record IsPreferredChoice (gs : List (ProviderGuard P)) (s : Selected P) : Type 0 where
    pub guard : ProviderGuard P
    pub score : DynamicScoreCacheableDownload
    pub stands : get_elem? gs s.index ≡ some guard
    pub provider : guard.guarded_provider ≡ s.provider
    pub eligible : choice mirror_score guard ≡ include score
    pub preferred :
        (j : ℕ) (g : ProviderGuard P) (t : DynamicScoreCacheableDownload)
        → get_elem? gs j ≡ some g
        → choice mirror_score g ≡ include t
        → IsPreferred score t

  -- Whatever function gives the scores of cacheable orders, the provider handed out has the fewest
  -- failures in its score of all eligible ones; among those with as many the fewest uses; and among those
  -- again the least latency.
  pub get_provider_guard-IsPreferredChoice :
      (gs : List (ProviderGuard P)) (s : Selected P)
      → get_provider_guard ⦃o = ord_cacheable_score⦄ mirror_score gs ≡ some s
      → IsPreferredChoice gs s
  unfolding ord_cacheable_score
  get_provider_guard-IsPreferredChoice gs s e =
      let best = get_provider_guard-IsBest mirror_score ⦃o = ord_cacheable_score⦄ gs s e in
      record {
        guard = best.guard;
        score = best.score;
        stands = best.stands;
        provider = best.provider;
        eligible = best.eligible;
        preferred = λ j g t stands eligible.
            le_cacheable-IsPreferred _ _ (best.least j g t stands eligible);
      }
