-- ===== src/Rating/Retry.antt =====
-- Which mirrors are rated, and what a further attempt can change.
use flexo.Base.{ℕ, ◌≡◌, refl, ◌∙◌, Bool, List, [], ◌∷◌, Option}
use flexo.Base.Text.{Text}
use flexo.Scores.{MirrorResults}
use flexo.Download.{DownloadProvider}
use flexo.Mirrors.{Mirror, MirrorsAutoConfig, relax}
use flexo.Rating.{
  Limit, CountryFilter, rated_providers, rated_providers_retry, rate_from, unless_empty,
}

module _ {F I : Type 0} (exceeds : F → ℕ → Bool) (relaxed_score : F → F)
    (sort_unstable : List (Mirror F I × MirrorResults) → List (Mirror F I × MirrorResults))
    (measure : ℕ → Text → ℕ → Option MirrorResults) (mirrors : List (Mirror F I))
    (c : MirrorsAutoConfig F) (f : CountryFilter) (l : Limit) where
  abbrev rated : MirrorsAutoConfig F → List DownloadProvider
  rated config = rated_providers exceeds relaxed_score sort_unstable (measure 0) mirrors config f l

  -- Latency tests that give the same results at each attempt.
  abbrev pub IsSteady : Type 0
  IsSteady = (i : ℕ) → measure i ≡ measure 0

  only_twice :
      (ps qs : List DownloadProvider)
      → unless_empty ps (unless_empty qs (unless_empty qs (unless_empty qs (unless_empty qs []))))
        ≡ unless_empty ps qs
  only_twice [] [] = refl
  only_twice [] (q ∷ qs) = refl
  only_twice (p ∷ ps) qs = refl

  -- As long as latency tests give the same results at each attempt, the attempts behind the second change
  -- nothing: the settings are relaxed once, from the original ones, at each of them.
  pub rated_providers_retry-relax :
      IsSteady
      → rated_providers_retry exceeds relaxed_score sort_unstable measure mirrors c f l
        ≡ unless_empty (rated c) (rated (relax relaxed_score c))
  unfolding rated_providers_retry rate_from
  rated_providers_retry-relax steady =
      let relaxed : (Text → ℕ → Option MirrorResults) → List DownloadProvider = λ m.
        rated_providers exceeds relaxed_score sort_unstable m mirrors (relax relaxed_score c) f l in
      (λ i. unless_empty (rated c) (
        unless_empty (relaxed (steady 1 i)) (
          unless_empty (relaxed (steady 2 i))
            (unless_empty (relaxed (steady 3 i)) (unless_empty (relaxed (steady 4 i)) [])))))
      ∙ only_twice (rated c) (rated (relax relaxed_score c))
