-- ===== src/Order/Custom.antt =====
-- The failure count of a custom provider.
use flexo.Base.{
  ℕ, suc, ◌-◌, ◌^◌, ◌≡◌, refl, ap, subst, ◌∙◌, true, false, [], ◌∷◌, ◌++◌, none, some, arith,
  Bool-cases, inl, inr,
}
use flexo.Metrics.{ProviderIdentifier, Metrics, punish, pardon}
use flexo.Metrics.Laws.{
  failures, entry, failures-punish_unknown, punish-IsKnown_self, failures-pardon_one,
}
use flexo.Job.{Job, JobResult, complete, partial, error, World, is_success, is_punished}
use flexo.Order.{
  Shared, Run, Others, Outcome, panicked, out_of_fuel, finished, select_provider, punish_if,
  release_guard, attempt_with, try_loop, pardon_unless_success, first_run, try_until_success,
}
use flexo.Order.Attempts.{after, after-stop}
use flexo.Order.Loop.{attempt_of_select, try_loop_stop}
use flexo.Order.Rounds.{last_chance-eq-false}

failures-pardon-punish_unknown :
    (id : ProviderIdentifier) (m : Metrics)
    → entry id m ≡ none
    → failures id (pardon (id ∷ []) (punish id m)) ≡ 2 ^ 32 - 1
unfolding pardon
failures-pardon-punish_unknown id m h = ground (
  arith,
  failures-pardon_one id id (punish id m) (punish-IsKnown_self id m),
  failures-punish_unknown id m h,
)

punished-not_success : {J : Job} (r : JobResult J) → is_punished r ≡ true → is_success r ≡ false
punished-not_success (complete c p n) h = cc
punished-not_success (partial c n) h = refl
punished-not_success (error c e) h = refl
punished-not_success _ h = cc

module _ (J : Job) (world : ℕ → World J) (others : Others J) (order : J.Order) where
  -- No other thread writes the metrics meanwhile.
  abbrev pub KeepMetrics : Type 0
  KeepMetrics =
      ((n : ℕ) (s : Shared J) → (others.before_select n s).provider_metrics ≡ s.provider_metrics)
      × ((n : ℕ) (s : Shared J) → (others.during_job n s).provider_metrics ≡ s.provider_metrics)
      × ((s : Shared J) → (others.before_pardon s).provider_metrics ≡ s.provider_metrics)

  after-punished :
      (w : World J) (during : Shared J → Shared J) (r : Run J) (p : J.Provider) (s : Shared J)
      → ((t : Shared J) → (during t).provider_metrics ≡ t.provider_metrics)
      → r.punished_providers ≡ []
      → let a =
          after J w during order r
            (record { index = none; provider = p; is_last_provider = true; shared = s }) in
        is_punished a.result ≡ true
        → (a.run.shared.provider_metrics ≡ punish (J.identifier p) s.provider_metrics)
          × (a.run.punished_providers ≡ J.identifier p ∷ [])
          × (is_success a.result ≡ false)
  unfolding attempt_with punish_if release_guard
  after-punished w during r p s keep nil h = rw h (
    ap (punish (J.identifier p)) (keep _),
    ap (λ ids. ids ++ J.identifier p ∷ []) nil,
    punished-not_success _ h,
  )

  abbrev WrapsOut : J.Provider → Outcome J → Type 0
  WrapsOut p panicked = Unit
  WrapsOut p out_of_fuel = Unit
  WrapsOut p (finished result run) =
      is_punished result ≡ true → failures (J.identifier p) run.shared.provider_metrics ≡ 2 ^ 32 - 1

  pardoned_custom :
      (p : J.Provider) (s : Shared J) (result : JobResult J) (r : Run J)
      → KeepMetrics
      → entry (J.identifier p) s.provider_metrics ≡ none
      → r.shared.provider_metrics ≡ punish (J.identifier p) s.provider_metrics
      → r.punished_providers ≡ J.identifier p ∷ []
      → is_success result ≡ false
      → failures
          (J.identifier p)
          (pardon_unless_success J world others order (some p) result r).shared.provider_metrics
        ≡ 2 ^ 32 - 1
  unfolding pardon_unless_success
  pardoned_custom p s result r keep new m ids lost =
      rw (lost, ids, keep.2 r.shared, m)
        (failures-pardon-punish_unknown (J.identifier p) s.provider_metrics new)

  custom_loop-WrapsOut :
      (p : J.Provider) (s : Shared J) (fuel : ℕ)
      → KeepMetrics
      → entry (J.identifier p) s.provider_metrics ≡ none
      → WrapsOut p (
          try_loop J world others order
            (some p)
            (suc fuel)
            (first_run J world others order (some p) s))
  unfolding select_provider
  custom_loop-WrapsOut p s fuel keep new =
      let r = first_run J world others order (some p) s in
      let t = others.before_select 1 s in
      let a =
        after J (world 1) (others.during_job 1) order r
          (record { index = none; provider = p; is_last_provider = true; shared = t }) in
      let tried = attempt_of_select J world others order (some p) r refl in
      elim (Bool-cases a.stop) [
        | inl stop ↦ rw (try_loop_stop J world others order (some p) fuel r a tried stop) (λ bad.
            let (m, ids, lost) =
              after-punished (world 1) (others.during_job 1) r p t (keep.1 1) refl bad in
            pardoned_custom p s a.result a.run keep new
              (m ∙ ap (punish (J.identifier p)) (keep.0 1 s)) ids lost)
        | inr go ↦
            cc
              (last_chance-eq-false J order _ _
                (after-stop J (world 1) (others.during_job 1) order r _ go)).1
      ]

  -- A custom provider without an entry, of which the only attempt fails, ends with 2 ^ 32 - 1
  -- failures: the punishment adds an entry with none, and the pardon takes one from it.
  pub try_until_success-custom_wraps :
      (p : J.Provider) (s : Shared J) (result : JobResult J) (run : Run J)
      → KeepMetrics
      → entry (J.identifier p) s.provider_metrics ≡ none
      → try_until_success J world others order (some p) s ≡ finished result run
      → is_punished result ≡ true
      → failures (J.identifier p) run.shared.provider_metrics ≡ 2 ^ 32 - 1
  try_until_success-custom_wraps p s result run keep new e bad =
      subst (WrapsOut p) e (unfold try_until_success in custom_loop-WrapsOut p s 24 keep new) bad
