-- ===== src/Rating/Distinct.antt =====
-- The identifiers of the providers that mirrors become.
use flexo.Base.{
  ℕ, ◌+◌, ◌≤◌, ◌≡◌, ◌≢◌, refl, ap, sym, subst, ◌||◌, Bool, true, false, List, [], ◌∷◌, ◌++◌, Option,
  none, arith, any, keep_if, leb, contains, Bool-cases, Option-cases, inl, inr, if◌then◌else◌,
}
use flexo.Base.Text.{Text, text_eq}
use flexo.Metrics.{ProviderIdentifier, ProviderIdentifier-discrete}
use flexo.Scores.{MirrorResults}
use flexo.Download.{DownloadProvider, provider_identifier}
use flexo.Download.Equality.{mirror_job}
use flexo.Context.{check_duplicates, new_context}
use flexo.Mirrors.{Mirror, MirrorsAutoConfig, push_new, is_http, is_https, filter_predicate}
use flexo.Rating.Counts.{
  count, count-append, count-keep_if, count-limited, count-map, same_text, text_eq-eq-true,
  none_accepted,
}
use flexo.Rating.{
  Limit, limited, CountryFilter, insert_by_score, sort_by_score, candidates, measured, provider_of,
  rated_providers, includes_country,
}

module _ {F I : Type 0} where
  abbrev with_url : Text → Mirror F I → Bool
  with_url u m = text_eq m.url u

  -- No URL twice.
  abbrev pub IsUnique : List (Mirror F I) → Type 0
  IsUnique mirrors = (u : Text) → count (with_url u) mirrors ≤ 1

  pushed-IsUnique :
      (mirrors : List (Mirror F I)) (m : Mirror F I)
      → any (with_url m.url) mirrors ≡ false
      → IsUnique mirrors
      → IsUnique (mirrors ++ m ∷ [])
  pushed-IsUnique mirrors m new h u = elim (Bool-cases (text_eq m.url u)) [
    | inl same ↦
        let none_yet = none_accepted (with_url m.url) mirrors new in
        let absent : count (with_url u) mirrors ≡ 0 =
          subst (λ v. count (with_url v) mirrors ≡ 0) (text_eq-eq-true m.url u same) none_yet in
        let both = count-append (with_url u) mirrors (m ∷ []) in
        rw both (rw same (omega (arith, absent)))
    | inr other ↦
        let both = count-append (with_url u) mirrors (m ∷ []) in
        rw both (rw other (omega (arith, h u)))
  ]

  pub push_new-IsUnique :
      (mirrors ms : List (Mirror F I)) → IsUnique mirrors → IsUnique (push_new mirrors ms)
  unfolding push_new
  push_new-IsUnique mirrors [] h = h
  push_new-IsUnique mirrors (m ∷ ms) h = elim (Bool-cases (any (with_url m.url) mirrors)) [
    | inl there ↦ rw there (push_new-IsUnique mirrors ms h)
    | inr new ↦ rw new (push_new-IsUnique (mirrors ++ m ∷ []) ms (pushed-IsUnique mirrors m new h))
  ]

module _ {F I : Type 0} (exceeds : F → ℕ → Bool) (relaxed_score : F → F)
    (sort_unstable : List (Mirror F I × MirrorResults) → List (Mirror F I × MirrorResults)) where
  -- The sort yields each element as often as it was there.
  abbrev pub Permutes : Type 0
  Permutes =
      (p : Mirror F I × MirrorResults → Bool) (l : List (Mirror F I × MirrorResults))
      → count p (sort_unstable l) ≡ count p l

  count-insert_by_score :
      (p : Mirror F I → Bool) (m : Mirror F I) (ms : List (Mirror F I))
      → count p (insert_by_score exceeds relaxed_score sort_unstable m ms) ≡ count p (m ∷ ms)
  unfolding insert_by_score
  count-insert_by_score p m [] = refl
  count-insert_by_score p m (k ∷ ks) = elim (Bool-cases (leb m.score k.score)) [
    | inl less ↦ rw less refl
    | inr more ↦ rw more (omega (arith, count-insert_by_score p m ks))
  ]

  count-sort_by_score :
      (p : Mirror F I → Bool) (ms : List (Mirror F I))
      → count p (sort_by_score exceeds relaxed_score sort_unstable ms) ≡ count p ms
  unfolding sort_by_score
  count-sort_by_score p [] = refl
  count-sort_by_score p (m ∷ ms) =
      let ih = count-sort_by_score p ms in
      omega (
        arith,
        count-insert_by_score p m (sort_by_score exceeds relaxed_score sort_unstable ms),
        ih,
      )

  count-candidates :
      (p : Mirror F I → Bool) (c : MirrorsAutoConfig F) (f : CountryFilter) (ms : List (Mirror F I))
      → count p (candidates exceeds relaxed_score sort_unstable c f ms) ≤ count p ms
  unfolding candidates
  count-candidates p c f ms =
      let first = keep_if (λ (m : Mirror F I). is_http m.protocol || is_https m.protocol) ms in
      let second = keep_if (filter_predicate exceeds c) first in
      omega (
        arith,
        count-keep_if p (λ m. is_http m.protocol || is_https m.protocol) ms,
        count-keep_if p (filter_predicate exceeds c) first,
        count-keep_if p (λ m. includes_country f m.country_code) second,
      )

  count-measured :
      (p : Mirror F I → Bool) (measure : Text → ℕ → Option MirrorResults) (timeout : ℕ)
      (ms : List (Mirror F I))
      → count (λ x. p x.0) (measured exceeds relaxed_score sort_unstable measure timeout ms)
        ≤ count p ms
  unfolding measured
  count-measured p measure timeout [] = omega arith
  count-measured p measure timeout (m ∷ ms) =
      let ih = count-measured p measure timeout ms in
      elim (Option-cases (measure m.url timeout)) [
        | inl failed ↦ rw (failed, count, measured) (omega (arith, ih))
        | inr (r, done) ↦ rw (done, count, measured) (omega (arith, ih))
      ]

  -- No provider twice.
  abbrev pub HasDistinct : List DownloadProvider → Type 0
  HasDistinct ps = (u : Text) → count (λ (p : DownloadProvider). text_eq p.uri u) ps ≤ 1

  pub rated_providers-HasDistinct :
      (measure : Text → ℕ → Option MirrorResults) (mirrors : List (Mirror F I))
      (c : MirrorsAutoConfig F) (f : CountryFilter) (l : Limit)
      → Permutes
      → IsUnique mirrors
      → HasDistinct (rated_providers exceeds relaxed_score sort_unstable measure mirrors c f l)
  unfolding rated_providers
  rated_providers-HasDistinct measure mirrors c f l permutes unique u =
      let sorted = sort_by_score exceeds relaxed_score sort_unstable mirrors in
      let chosen = candidates exceeds relaxed_score sort_unstable c f sorted in
      let tested =
        measured exceeds relaxed_score sort_unstable measure c.timeout (limited l chosen) in
      omega (
        arith,
        count-map (λ (p : DownloadProvider). text_eq p.uri u) provider_of (sort_unstable tested),
        permutes (λ x. with_url u x.0) tested,
        count-measured (with_url u) measure c.timeout (limited l chosen),
        count-limited (with_url u) l chosen,
        count-candidates (with_url u) c f sorted,
        count-sort_by_score (with_url u) mirrors,
        unique u,
      )

-- How often an identifier is taken: once in a list that has it, and by each provider.
abbrev IsFree : List ProviderIdentifier → List DownloadProvider → Type 0
IsFree ids ps =
    (id : ProviderIdentifier)
    → (if contains ProviderIdentifier-discrete id ids then 1 else 0)
        + count (λ (p : DownloadProvider). text_eq p.uri id.identifier) ps
      ≤ 1

contains_here :
    (x y : ProviderIdentifier) (ys : List ProviderIdentifier)
    → x ≡ y
    → contains ProviderIdentifier-discrete x (y ∷ ys) ≡ true
unfolding contains
contains_here x y ys e = ground arith

contains_there :
    (x y : ProviderIdentifier) (ys : List ProviderIdentifier)
    → x ≢ y
    → contains ProviderIdentifier-discrete x (y ∷ ys) ≡ contains ProviderIdentifier-discrete x ys
unfolding contains
contains_there x y ys n = ground arith

taken-IsFree :
    (ids : List ProviderIdentifier) (p : DownloadProvider) (ps : List DownloadProvider)
    → IsFree ids (p ∷ ps)
    → IsFree (provider_identifier p ∷ ids) ps
unfolding provider_identifier
taken-IsFree ids p ps h id =
    let free = h id in
    elim (ProviderIdentifier-discrete id (provider_identifier p)) [
      | yes same ↦
          let counted =
            same_text p.uri id.identifier
              (ap (λ (k : ProviderIdentifier). k.identifier) (sym same)) in
          rw (contains_here id (provider_identifier p) ids same)
            (omega (arith, rw (counted, count) at free))
      | no other ↦ rw (contains_there id (provider_identifier p) ids other) (omega (arith, free))
    ]

check_duplicates-HasDistinct :
    (ids : List ProviderIdentifier) (ps : List DownloadProvider)
    → IsFree ids ps
    → check_duplicates mirror_job ids ps ≡ true
unfolding check_duplicates provider_identifier
check_duplicates-HasDistinct ids [] h = refl
check_duplicates-HasDistinct ids (p ∷ ps) h =
    let own = h (provider_identifier p) in
    let here = same_text p.uri p.uri refl in
    elim (Bool-cases (contains ProviderIdentifier-discrete (provider_identifier p) ids)) [
      | inl there ↦ absurd (omega (arith, rw (there, here, count) at own))
      | inr new ↦
          rw new (
            check_duplicates-HasDistinct (provider_identifier p ∷ ids) ps (taken-IsFree ids p ps h))
    ]

pub new_context-HasDistinct :
    (ps : List DownloadProvider)
    → ((u : Text) → count (λ (p : DownloadProvider). text_eq p.uri u) ps ≤ 1)
    → new_context mirror_job ps ≢ none
unfolding new_context contains
new_context-HasDistinct ps distinct =
    rw (check_duplicates-HasDistinct [] ps (λ id. omega (arith, distinct id.identifier))) (λ e. cc)
