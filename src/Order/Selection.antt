-- ===== src/Order/Selection.antt =====
-- Which provider an attempt gets.
use flexo.Base.{
  ℕ, zero, suc, ◌+◌, ◌<◌, ◌≡◌, ◌≢◌, ap, refl, sym, subst, ◌∙◌, Bool, true, false, List, [], ◌∷◌,
  map, some, arith, length, contains, NotIn, Distinct, get_elem?, Bool-cases, Option-cases, inl,
  inr, if◌then◌else◌,
}
use flexo.Metrics.{ProviderIdentifier, ProviderIdentifier-discrete, Metrics}
use flexo.Guards.{Ord, include, ProviderGuard, Selected, guards_with_scores, get_provider_guard}
use flexo.Guards.Usages.{providers, providers-clone_at}
use flexo.Guards.Choice.{
  get_provider_guard-IsBest, get_provider_guard-clone_at, length-scored_of_none,
}
use flexo.Job.{Job, DynamicProviderMetrics}
use flexo.Order.{score_unless_excluded, choose_guard}

-- membership, as a test
abbrev pub listed : ProviderIdentifier → List ProviderIdentifier → Bool
listed = contains ProviderIdentifier-discrete

-- how many of the identifiers are not excluded
pub count_eligible : List ProviderIdentifier → List ProviderIdentifier → ℕ
count_eligible ex [] = 0
count_eligible ex (id ∷ ids) = (if listed id ex then 0 else 1) + count_eligible ex ids

pub count_eligible-nil : (ids : List ProviderIdentifier) → count_eligible [] ids ≡ length ids
unfolding count_eligible contains
count_eligible-nil [] = refl
count_eligible-nil (id ∷ ids) = omega (arith, count_eligible-nil ids)

listed-nil : (id : ProviderIdentifier) → listed id [] ≡ false
unfolding contains
listed-nil id = refl

listed-cons :
    (k id : ProviderIdentifier) (ex : List ProviderIdentifier)
    → k ≢ id
    → listed k (id ∷ ex) ≡ listed k ex
unfolding contains
listed-cons k id ex h = ground arith

pub listed-cons_self :
    (id : ProviderIdentifier) (ex : List ProviderIdentifier) → listed id (id ∷ ex) ≡ true
unfolding contains
listed-cons_self id ex = ground arith

pub listed-cons_of :
    (k id : ProviderIdentifier) (ex : List ProviderIdentifier)
    → listed k ex ≡ true
    → listed k (id ∷ ex) ≡ true
unfolding contains
listed-cons_of k id ex h = ground arith

count_eligible-cons_absent :
    (id : ProviderIdentifier) (ex ids : List ProviderIdentifier)
    → NotIn id ids
    → count_eligible (id ∷ ex) ids ≡ count_eligible ex ids
unfolding count_eligible
count_eligible-cons_absent id ex [] h = refl
count_eligible-cons_absent id ex (k ∷ ids) (ne, h) =
    rw (listed-cons k id ex (λ e. ne (sym e)), count_eligible-cons_absent id ex ids h)

-- Excluding one of distinct providers leaves one less.
pub count_eligible-cons :
    (id : ProviderIdentifier) (ex ids : List ProviderIdentifier)
    → Distinct ids
    → listed id ids ≡ true
    → listed id ex ≡ false
    → count_eligible (id ∷ ex) ids + 1 ≡ count_eligible ex ids
unfolding count_eligible
count_eligible-cons id ex [] d here new = cc (listed-nil id, here)
count_eligible-cons id ex (k ∷ ids) (ne, d) here new = elim (ProviderIdentifier-discrete id k) [
  | yes p ↦ ground (arith, listed-cons_self k ex, count_eligible-cons_absent k ex ids ne)
  | no p ↦ ground (
    arith,
    listed-cons k id ex (λ e. p (sym e)),
    count_eligible-cons id ex ids d (sym (listed-cons id k ids p) ∙ here) new,
  )
]

module _ (J : Job) where
  open J use {Order, Provider, InitialScore, identifier}

  abbrev pub identifiers : List (ProviderGuard Provider) → List ProviderIdentifier
  identifiers gs = map identifier (providers gs)

  -- What a choice under exclusions promises.
  pub record IsEligible (ex : List ProviderIdentifier) (gs : List (ProviderGuard Provider))
      (s : Selected Provider) : Type 0 where
    pub listed_provider : listed (identifier s.provider) (identifiers gs) ≡ true
    pub not_excluded : listed (identifier s.provider) ex ≡ false
    pub counted : s.num_remaining ≡ count_eligible ex (identifiers gs)
    pub unchanged : identifiers s.guards ≡ identifiers gs

  listed_of_get :
      (i : ℕ) (gs : List (ProviderGuard Provider)) {g : ProviderGuard Provider}
      → get_elem? gs i ≡ some g
      → listed (identifier g.guarded_provider) (identifiers gs) ≡ true
  unfolding contains
  listed_of_get i [] e = cc
  listed_of_get zero (h ∷ gs) e = ground arith
  listed_of_get (suc i) (h ∷ gs) {g} e = ground (arith, listed_of_get i gs {g = g} e)

  module _ {O : Type 0} (from_metrics : DynamicProviderMetrics InitialScore → O) (m : Metrics)
      (ex : List ProviderIdentifier) where
    length-scored :
        (k : ℕ) (gs : List (ProviderGuard Provider))
        → length (guards_with_scores (score_unless_excluded J from_metrics m ex) k gs)
          ≡ count_eligible ex (identifiers gs)
    unfolding guards_with_scores score_unless_excluded count_eligible
    length-scored k [] = refl
    length-scored k (g ∷ gs) = ground (arith, length-scored (suc k) gs)

    not_listed_of_include :
        (p : Provider) (n : ℕ) (t : O)
        → score_unless_excluded J from_metrics m ex p n ≡ include t
        → listed (identifier p) ex ≡ false
    unfolding score_unless_excluded
    not_listed_of_include p n t h = ground arith

    module _ ⦃o : Ord O⦄ where
      chosen-IsEligible :
          (gs : List (ProviderGuard Provider)) (s : Selected Provider)
          → get_provider_guard (score_unless_excluded J from_metrics m ex) gs ≡ some s
          → IsEligible ex gs s
      chosen-IsEligible gs s e =
          let score = score_unless_excluded J from_metrics m ex in
          let best = get_provider_guard-IsBest score gs s e in
          let (now, num) = get_provider_guard-clone_at score gs s e in
          record {
            listed_provider =
                subst (λ p. listed (identifier p) (identifiers gs) ≡ true) best.provider
                  (listed_of_get s.index gs best.stands);
            not_excluded =
                subst (λ p. listed (identifier p) ex ≡ false) best.provider
                  (not_listed_of_include _ _ _ best.eligible);
            counted = num ∙ length-scored 0 gs;
            unchanged = rw now (ap (map identifier) (providers-clone_at s.index gs));
          }

      chosen_exists :
          (gs : List (ProviderGuard Provider))
          → 0 < count_eligible ex (identifiers gs)
          → (s : Selected Provider) × (get_provider_guard
                (score_unless_excluded J from_metrics m ex)
                gs
              ≡ some s)
      chosen_exists gs h =
          let score = score_unless_excluded J from_metrics m ex in
          elim (Option-cases (get_provider_guard score gs)) [
            | inl e ↦ absurd (omega (arith, length-scored_of_none score gs e, length-scored 0 gs))
            | inr found ↦ found
          ]

  module _ (order : Order) (m : Metrics) (ex : List ProviderIdentifier) where
    -- Under either score, a provider is found while one is left, and it is eligible.
    pub choose_guard-IsEligible :
        (gs : List (ProviderGuard Provider)) (s : Selected Provider)
        → choose_guard J order m ex gs ≡ some s
        → IsEligible ex gs s
    unfolding choose_guard
    choose_guard-IsEligible gs s e = elim (Bool-cases (J.is_cacheable order)) [
      | inl b ↦ chosen-IsEligible J.cacheable_score m ex ⦃o = J.ord_cacheable⦄ gs s (rw b at e)
      | inr b ↦ chosen-IsEligible J.uncacheable_score m ex ⦃o = J.ord_uncacheable⦄ gs s (rw b at e)
    ]

    pub choose_guard_exists :
        (gs : List (ProviderGuard Provider))
        → 0 < count_eligible ex (identifiers gs)
        → (s : Selected Provider) × (choose_guard J order m ex gs ≡ some s)
    unfolding choose_guard
    choose_guard_exists gs h = elim (Bool-cases (J.is_cacheable order)) [
      | inl b ↦ rw b (chosen_exists J.cacheable_score m ex ⦃o = J.ord_cacheable⦄ gs h)
      | inr b ↦ rw b (chosen_exists J.uncacheable_score m ex ⦃o = J.ord_uncacheable⦄ gs h)
    ]
