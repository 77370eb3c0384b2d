-- ===== src/Order/Failures.antt =====
-- What an order leaves behind in the failure counts.
use flexo.Base.{
  ℕ, zero, suc, ◌+◌, ◌^◌, ◌<◌, ◌≡◌, refl, subst, ◌∙◌, Bool, true, false, List, [], ◌∷◌, ◌++◌,
  Option, none, some, arith, ite, length, Distinct, All, All-append, All-mono, Bool-cases,
  Option-cases, inl, inr, if◌then◌else◌,
}
use flexo.Metrics.{ProviderIdentifier, ProviderIdentifier-discrete, u32, record_usage}
use flexo.Metrics.Laws.{
  IsKnown, failures, times, failures-record_usage, record_usage-IsKnown, record_usage-IsKnown_self,
  failures-punish, punish-IsKnown, failures-pardon_bounded,
}
use flexo.Job.{Job, JobResult, World, is_success}
use flexo.Order.{
  Shared, Run, Guarded, Others, Outcome, panicked, out_of_fuel, finished, num_max_attempts,
  select_provider, choose_guard, punish_if, release_guard, attempt_with, try_loop,
  pardon_unless_success, first_run, try_until_success,
}
use flexo.Order.Attempts.{after}
use flexo.Order.Selection.{identifiers}
use flexo.Order.Loop.{
  KeepProviders, try_until_success-Ends, attempt_of_select, try_loop_panic, try_loop_stop,
  try_loop_go,
}

times-append :
    (k id : ProviderIdentifier) (ids : List ProviderIdentifier)
    → times k (ids ++ id ∷ []) ≡ times k ids + ite (ProviderIdentifier-discrete k id) 1 0
times-append k id [] = omega arith
times-append k id (j ∷ ids) = omega (arith, times-append k id ids)

module _ (J : Job) where
  -- Other threads leave the failure counts alone.
  abbrev pub KeepsFailures : (Shared J → Shared J) → Type 0
  KeepsFailures f =
      (s : Shared J) (k : ProviderIdentifier)
      → (failures k (f s).provider_metrics ≡ failures k s.provider_metrics)
        × (IsKnown k s.provider_metrics → IsKnown k (f s).provider_metrics)

  module _ (before : ProviderIdentifier → ℕ) where
    -- Each count has grown by the number of times that the provider was punished.
    record Counts (r : Run J) : Type 0 where
      grown :
          (k : ProviderIdentifier)
          → failures k r.shared.provider_metrics ≡ u32 (before k + times k r.punished_providers)
      known : All (λ k. IsKnown k r.shared.provider_metrics) r.punished_providers

    punish_if-Counts :
        (b : Bool) (id : ProviderIdentifier) (r : Run J)
        → IsKnown id r.shared.provider_metrics
        → Counts r
        → Counts (punish_if J b id r)
    unfolding punish_if
    punish_if-Counts false id r h c = c
    punish_if-Counts true id r h c = record {
      grown = λ k. ground (
        arith,
        failures-punish k id r.shared.provider_metrics h,
        c.grown k,
        times-append k id r.punished_providers,
      );
      known =
          All-append _ _ _
            (All-mono r.punished_providers (λ k. punish-IsKnown k id r.shared.provider_metrics)
              c.known)
            (punish-IsKnown id id r.shared.provider_metrics h, tt);
    }

    eq-Counts :
        (r t : Run J)
        → t.shared.provider_metrics ≡ r.shared.provider_metrics
        → t.punished_providers ≡ r.punished_providers
        → Counts r
        → Counts t
    eq-Counts r t m p c = record { grown = λ k. rw (m, p) (c.grown k); known = rw (m, p) c.known }

    release_guard-metrics :
        (i : Option ℕ) (s : Shared J) → (release_guard J i s).provider_metrics ≡ s.provider_metrics
    unfolding release_guard
    release_guard-metrics none s = refl
    release_guard-metrics (some i) s = refl

    -- the behaviour of a round behind the choice of its guard
    after-Counts :
        (w : World J) (during : Shared J → Shared J) (order : J.Order) (r : Run J) (g : Guarded J)
        → KeepsFailures during
        → IsKnown (J.identifier g.provider) g.shared.provider_metrics
        → Counts (record r { shared = g.shared })
        → Counts (after J w during order r g).run
    unfolding attempt_with
    after-Counts w during order r g keep here c =
        eq-Counts _ _ (release_guard-metrics g.index _) refl (
          punish_if-Counts _ (J.identifier g.provider) _ ((keep _ _).1 here) (record {
            grown = λ k. (keep _ k).0 ∙ c.grown k;
            known = All-mono r.punished_providers (λ k. (keep _ k).1) c.known;
          }))

    select_none_inv :
        (order : J.Order) (ex : List ProviderIdentifier) (s : Shared J) {g : Guarded J}
        → select_provider J order none ex s ≡ some g
        → (p : J.Provider) × (g.provider ≡ p)
          × (g.shared.provider_metrics ≡ record_usage (J.identifier p) s.provider_metrics)
    unfolding select_provider
    select_none_inv order ex s {g} e =
        elim (Option-cases (choose_guard J order s.provider_metrics ex s.guards)) [
          | inl h ↦ cc (rw (h, select_provider) at e)
          | inr (c, h) ↦ (c.provider, ground arith, ground arith)
        ]

    select-Counts :
        (order : J.Order) (r : Run J) (s : Shared J) {g : Guarded J}
        → select_provider J order none r.unsuccessful_providers s ≡ some g
        → Counts (record r { shared = s })
        → IsKnown (J.identifier g.provider) g.shared.provider_metrics
          × Counts (record r { shared = g.shared })
    select-Counts order r s {g} e c =
        let (p, same, m) = select_none_inv order r.unsuccessful_providers s e in
        let id = J.identifier p in
        (
          rw (same, m) (record_usage-IsKnown_self id s.provider_metrics),
          record {
            grown = λ k. rw m (failures-record_usage k id s.provider_metrics ∙ c.grown k);
            known = rw m (
                All-mono r.punished_providers (λ k. record_usage-IsKnown k id s.provider_metrics)
                  c.known);
          },
        )

module _ (J : Job) (world : ℕ → World J) (others : Others J) (order : J.Order) where
  -- No other thread touches the failure counts meanwhile.
  abbrev pub KeepFailures : Type 0
  KeepFailures =
      ((n : ℕ) → KeepsFailures J (others.before_select n))
      × ((n : ℕ) → KeepsFailures J (others.during_job n))
      × KeepsFailures J others.before_pardon

  -- The counts when the loop has ended: as before if the order has failed, and with the punishments if
  -- it was completed.
  abbrev pub CountsAfter : (ProviderIdentifier → ℕ) → JobResult J → Run J → Type 0
  CountsAfter before result run =
      (k : ProviderIdentifier)
      → failures k run.shared.provider_metrics
        ≡ (if is_success result then u32 (before k + times k run.punished_providers) else before k)

  module _ (before : ProviderIdentifier → ℕ) (small : (k : ProviderIdentifier) → before k < 2 ^ 32)
      (keep : KeepFailures) where
    pardoned :
        (result : JobResult J) (r : Run J)
        → Counts J before r
        → CountsAfter before result (pardon_unless_success J world others order none result r)
    unfolding pardon_unless_success
    pardoned result r c k = elim (Bool-cases (is_success result)) [
      | inl yes' ↦ rw yes' (c.grown k)
      | inr no' ↦ rw no' (
          failures-pardon_bounded k r.punished_providers _ (before k)
            (All-mono r.punished_providers (λ j. (keep.2 r.shared j).1) c.known)
            (λ j. omega (arith, (keep.2 r.shared j).0, c.grown j)) (small k)
            ((keep.2 r.shared k).0 ∙ c.grown k))
    ]

    abbrev CountsOut : Outcome J → Type 0
    CountsOut panicked = Unit
    CountsOut out_of_fuel = Unit
    CountsOut (finished result run) = CountsAfter before result run

    try_loop-CountsOut :
        (fuel : ℕ) (r : Run J)
        → Counts J before r
        → CountsOut (try_loop J world others order none fuel r)
    unfolding try_loop
    try_loop-CountsOut zero r c = tt
    try_loop-CountsOut (suc fuel) r c =
        let n = r.num_attempt + 1 in
        let s = others.before_select n r.shared in
        let here : Counts J before (record r { shared = s }) = record {
          grown = λ k. (keep.0 n r.shared k).0 ∙ c.grown k;
          known = All-mono r.punished_providers (λ k. (keep.0 n r.shared k).1) c.known;
        } in
        elim (Option-cases (select_provider J order none r.unsuccessful_providers s)) [
          | inl h ↦ rw (try_loop_panic J world others order none fuel r h) tt
          | inr (g, h) ↦
              let (known, counts) = select-Counts J before order r s h here in
              let a = after J (world n) (others.during_job n) order r g in
              let next =
                after-Counts J before (world n) (others.during_job n) order r g (keep.1 n) known
                  counts in
              let tried = attempt_of_select J world others order none r h in
              elim (Bool-cases a.stop) [
                | inl stop ↦
                    rw (try_loop_stop J world others order none fuel r a tried stop)
                      (pardoned a.result a.run next)
                | inr go ↦
                    rw (try_loop_go J world others order none fuel r a tried go)
                      (try_loop-CountsOut fuel a.run next)
              ]
        ]

  -- An order without a custom provider ends with a result. If that is not a success, each provider has
  -- as many failures as before; if it is, each has one more for each time that it was punished. This
  -- is under the conditions of `try_until_success-Ends`, with counts below 2 ^ 32 at the start, and
  -- with no other thread touching the counts meanwhile.
  pub try_until_success-CountsAfter :
      (s : Shared J)
      → Distinct (identifiers J s.guards)
      → 0 < length (identifiers J s.guards)
      → KeepProviders J world others order
      → KeepFailures
      → ((k : ProviderIdentifier) → failures k s.provider_metrics < 2 ^ 32)
      → (result : JobResult J) × (run : Run J) × (try_until_success J world others order none s
          ≡ finished result run)
        × CountsAfter (λ k. failures k s.provider_metrics) result run
  unfolding try_until_success
  try_until_success-CountsAfter s distinct pos same keep small =
      let ends = try_until_success-Ends J world others order s distinct pos same in
      (
        ends.result,
        ends.run,
        ends.is,
        subst (CountsOut (λ k. failures k s.provider_metrics) small keep) ends.is (
            try_loop-CountsOut (λ k. failures k s.provider_metrics) small keep num_max_attempts
              (first_run J world others order none s)
              (record { grown = λ k. omega (arith, small k); known = tt })),
      )
