-- ===== src/Rating/Allowed.antt =====
-- The mirrors that providers come from.
use flexo.Base.{
  ℕ, zero, suc, ◌≡◌, refl, Bool, true, ◌||◌, List, [], ◌∷◌, map, Option, some, leb, take, keep_if,
  All, All-mono, Bool-cases, Option-cases, inl, inr,
}
use flexo.Base.Text.{Text}
use flexo.Scores.{MirrorResults}
use flexo.Download.{DownloadProvider}
use flexo.Mirrors.{Mirror, MirrorsAutoConfig, is_http, is_https, filter_predicate}
use flexo.Rating.{
  Limit, no_limit, limit, limited, CountryFilter, includes_country, insert_by_score, sort_by_score,
  candidates, measured, provider_of, rated_providers,
}

module _ {A : Type 0} (P : A → Type 0) where
  keep_if-All :
      (q : A → Bool) (xs : List A) → All P xs → All (λ x. P x × (q x ≡ true)) (keep_if q xs)
  keep_if-All q [] h = tt
  keep_if-All q (x ∷ xs) (p, h) = elim (Bool-cases (q x)) [
    | inl kept ↦ rw (kept, All, keep_if) ((p, kept), keep_if-All q xs h)
    | inr left_out ↦ rw (left_out, All, keep_if) (keep_if-All q xs h)
  ]

  take-All : (n : ℕ) (xs : List A) → All P xs → All P (take n xs)
  take-All zero xs h = tt
  take-All (suc n) [] h = tt
  take-All (suc n) (x ∷ xs) (p, h) = (p, take-All n xs h)

  limited-All : (l : Limit) (xs : List A) → All P xs → All P (limited l xs)
  limited-All no_limit xs h = h
  limited-All (limit l) xs h = take-All l xs h

map-All :
    {A B : Type 0} (P : B → Type 0) (f : A → B) (xs : List A)
    → All (λ x. P (f x)) xs
    → All P (map f xs)
map-All P f [] h = tt
map-All P f (x ∷ xs) (p, h) = (p, map-All P f xs h)

module _ {F I : Type 0} (exceeds : F → ℕ → Bool) (relaxed_score : F → F)
    (sort_unstable : List (Mirror F I × MirrorResults) → List (Mirror F I × MirrorResults))
    (measure : Text → ℕ → Option MirrorResults) (c : MirrorsAutoConfig F) (f : CountryFilter) where
  -- The sort yields nothing that was not there.
  abbrev pub Keeps : Type 1
  Keeps =
      (P : Mirror F I × MirrorResults → Type 0) (l : List (Mirror F I × MirrorResults))
      → All P l
      → All P (sort_unstable l)

  module _ (P : Mirror F I → Type 0) where
    insert_by_score-All :
        (m : Mirror F I) (ms : List (Mirror F I))
        → P m
        → All P ms
        → All P (insert_by_score exceeds relaxed_score sort_unstable m ms)
    unfolding insert_by_score
    insert_by_score-All m [] p h = (p, tt)
    insert_by_score-All m (k ∷ ks) p (q, h) = elim (Bool-cases (leb m.score k.score)) [
      | inl less ↦ rw (less, All, insert_by_score) (p, (q, h))
      | inr more ↦ rw (more, All, insert_by_score) (q, insert_by_score-All m ks p h)
    ]

    sort_by_score-All :
        (ms : List (Mirror F I))
        → All P ms
        → All P (sort_by_score exceeds relaxed_score sort_unstable ms)
    unfolding sort_by_score
    sort_by_score-All [] h = tt
    sort_by_score-All (m ∷ ms) (p, h) = insert_by_score-All m _ p (sort_by_score-All ms h)

    -- A mirror as required, by HTTP or HTTPS, that the settings and the countries allow.
    pub record IsAllowed (m : Mirror F I) : Type 0 where
      pub required : P m
      pub protocol : (is_http m.protocol || is_https m.protocol) ≡ true
      pub settings : filter_predicate exceeds c m ≡ true
      pub country : includes_country f m.country_code ≡ true

    candidates-All :
        (ms : List (Mirror F I))
        → All P ms
        → All IsAllowed (candidates exceeds relaxed_score sort_unstable c f ms)
    unfolding candidates
    candidates-All ms h =
        All-mono _
          (λ m a. record {
            required = a.0.0.0;
            protocol = a.0.0.1;
            settings = a.0.1;
            country = a.1;
          })
          (keep_if-All _ (λ m. includes_country f m.country_code) _
            (keep_if-All _ (filter_predicate exceeds c) _
              (keep_if-All P (λ m. is_http m.protocol || is_https m.protocol) ms h)))

    abbrev Tested : Mirror F I × MirrorResults → Type 0
    Tested x = IsAllowed x.0 × (measure x.0.url c.timeout ≡ some x.1)

    measured-All :
        (ms : List (Mirror F I))
        → All IsAllowed ms
        → All Tested (measured exceeds relaxed_score sort_unstable measure c.timeout ms)
    unfolding measured
    measured-All [] h = tt
    measured-All (m ∷ ms) (p, h) = elim (Option-cases (measure m.url c.timeout)) [
      | inl failed ↦ rw (failed, All, measured) (measured-All ms h)
      | inr (r, done) ↦ rw (done, All, measured) ((p, done), measured-All ms h)
    ]

    -- The mirror that a provider stands for, with its latency test.
    pub record IsFromMirror (p : DownloadProvider) : Type 0 where
      pub mirror : Mirror F I
      pub allowed : IsAllowed mirror
      pub tested : measure mirror.url c.timeout ≡ some p.mirror_results
      pub same_uri : p.uri ≡ mirror.url
      pub same_country : p.country_code ≡ mirror.country_code

    -- Every provider stands for a mirror of the list, with what holds of all of them, that is reached by HTTP
    -- or HTTPS, passes the filter of the settings, lies in a country that is allowed, and passed its
    -- latency test with the results of the provider. The sort yields nothing that was not there.
    pub rated_providers-All :
        (mirrors : List (Mirror F I)) (l : Limit)
        → Keeps
        → All P mirrors
        → All IsFromMirror
            (rated_providers exceeds relaxed_score sort_unstable measure mirrors c f l)
    unfolding rated_providers
    rated_providers-All mirrors l keeps h = map-All IsFromMirror provider_of _ (
        All-mono _
          (λ x t. record {
            mirror = x.0;
            allowed = t.0;
            tested = t.1;
            same_uri = refl;
            same_country = refl;
          })
          (keeps Tested _ (
            measured-All _
              (limited-All IsAllowed l _ (candidates-All _ (sort_by_score-All mirrors h))))))
