-- ===== src/Order/Attempts.antt =====
-- Order::try_until_success in flexo/src/lib.rs: what a single attempt does to the loop's variables.
use flexo.Base.{
  ℕ, ◌+◌, ◌≡◌, refl, ap, ◌∙◌, Bool, true, false, List, [], ◌∷◌, ◌++◌, map, Option, none, some,
  arith,
}
use flexo.Metrics.{ProviderIdentifier}
use flexo.Guards.Usages.{providers-drop_at}
use flexo.Job.{Job, Result, ok, err, ChannelEstablishment, World}
use flexo.Order.{
  Shared, Run, Guarded, Attempt, IntegrationTestMessage, provider_selected, channel_established,
  order_error, last_chance, punish_if, release_guard, attempt_with, serve,
}
use flexo.Order.Selection.{identifiers}

-- The providers that the messages name.
abbrev pub selected : List IntegrationTestMessage → List ProviderIdentifier
selected [] = []
selected (provider_selected id ∷ ms) = id ∷ selected ms
selected (channel_established how ∷ ms) = selected ms
selected (order_error ∷ ms) = selected ms

selected-append :
    (ms : List IntegrationTestMessage) (ns : List IntegrationTestMessage)
    → selected (ms ++ ns) ≡ selected ms ++ selected ns
selected-append [] ns = refl
selected-append (provider_selected id ∷ ms) ns = rw (selected-append ms ns)
selected-append (channel_established how ∷ ms) ns = selected-append ms ns
selected-append (order_error ∷ ms) ns = selected-append ms ns

module _ (J : Job) where
  -- The message that `serve` yields names no provider.
  selected-serve :
      (w : World J) (o : J.Order) (p : J.Provider)
      → (c : Result (J.Channel × ChannelEstablishment) J.OrderError)
      → selected ((serve J w o p c).message ∷ []) ≡ []
  unfolding serve
  selected-serve w o p (ok c) = refl
  selected-serve w o p (err e) = refl

  release_guard-identifiers :
      (i : Option ℕ) (s : Shared J)
      → identifiers J (release_guard J i s).guards ≡ identifiers J s.guards
  unfolding release_guard
  release_guard-identifiers none s = refl
  release_guard-identifiers (some i) s = ap (map J.identifier) (providers-drop_at i s.guards)

  punish_if-fields :
      (b : Bool) (id : ProviderIdentifier) (r : Run J)
      → ((punish_if J b id r).num_attempt ≡ r.num_attempt)
        × ((punish_if J b id r).shared.guards ≡ r.shared.guards)
        × ((punish_if J b id r).unsuccessful_providers ≡ r.unsuccessful_providers)
        × ((punish_if J b id r).messages ≡ r.messages)
  unfolding punish_if
  punish_if-fields true id r = ground arith
  punish_if-fields false id r = ground arith

  -- The providers stay the same, whatever else a function does to the shared state.
  abbrev pub KeepsProviders : (Shared J → Shared J) → Type 0
  KeepsProviders f = (s : Shared J) → identifiers J (f s).guards ≡ identifiers J s.guards

  module _ (w : World J) (during : Shared J → Shared J) (order : J.Order) (r : Run J)
      (g : Guarded J) where
    abbrev pub after : Attempt J
    after = attempt_with J w during order r g

    pub after-num_attempt : after.run.num_attempt ≡ r.num_attempt + 1
    unfolding attempt_with
    after-num_attempt = (punish_if-fields _ _ _).0

    pub after-identifiers :
        KeepsProviders during
        → identifiers J after.run.shared.guards ≡ identifiers J g.shared.guards
    unfolding attempt_with
    after-identifiers keep =
        release_guard-identifiers g.index _ ∙ ap (identifiers J) (punish_if-fields _ _ _).1 ∙ keep _

    pub after-selected :
        selected after.run.messages ≡ selected r.messages ++ J.identifier g.provider ∷ []
    unfolding attempt_with
    after-selected =
        ap selected (punish_if-fields _ _ _).3
        ∙ selected-append r.messages _
        ∙ ap (λ ms. selected r.messages ++ J.identifier g.provider ∷ ms)
            (selected-serve w order g.provider _)

    pub after-unsuccessful :
        after.stop ≡ false
        → after.run.unsuccessful_providers ≡ J.identifier g.provider ∷ r.unsuccessful_providers
    unfolding attempt_with
    after-unsuccessful h = rw h (ap (◌∷◌ (J.identifier g.provider)) (punish_if-fields _ _ _).2)

    pub after-stop :
        after.stop ≡ false → last_chance J order (r.num_attempt + 1) g.is_last_provider ≡ false
    unfolding attempt_with
    after-stop h = ground arith
