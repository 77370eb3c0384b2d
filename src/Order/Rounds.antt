-- ===== src/Order/Rounds.antt =====
-- Order::try_until_success in flexo/src/lib.rs: what one round of the retry loop keeps.
use flexo.Base.{
  ℕ, ◌+◌, ◌≤◌, ◌<◌, ◌≡◌, ◌≢◌, refl, ap, subst, ◌∙◌, Bool, true, false, List, [], ◌∷◌, ◌++◌, none,
  some, arith, length, length-append, leb, NotIn, Distinct, All, All-append, All-mono,
}
use flexo.Metrics.{ProviderIdentifier}
use flexo.Job.{Job, World}
use flexo.Order.{Shared, Run, Guarded, num_max_attempts, select_provider, last_chance, guarded_by}
use flexo.Order.Selection.{
  listed, identifiers, count_eligible, count_eligible-cons, listed-cons_self, listed-cons_of,
  choose_guard-IsEligible, choose_guard_exists,
}
use flexo.Order.Attempts.{
  selected, KeepsProviders, after, after-num_attempt, after-identifiers, after-selected,
  after-unsuccessful, after-stop,
}

pub NotIn-concat {ℓ} :
    {A : Type ℓ} (x y : A) (xs : List A) → NotIn x xs → x ≢ y → NotIn x (xs ++ y ∷ [])
NotIn-concat x y [] h ne = (ne, tt)
NotIn-concat x y (z ∷ xs) (h, hs) ne = (h, NotIn-concat x y xs hs ne)

pub Distinct-concat {ℓ} :
    {A : Type ℓ} (xs : List A) (y : A) → Distinct xs → All (λ x. x ≢ y) xs → Distinct (xs ++ y ∷ [])
Distinct-concat [] y d h = (tt, tt)
Distinct-concat (x ∷ xs) y (n, d) (h, hs) = (NotIn-concat x y xs n h, Distinct-concat xs y d hs)

-- a listed identifier is not one that is not listed
pub not_listed_ne :
    (ex : List ProviderIdentifier) (id : ProviderIdentifier) (ids : List ProviderIdentifier)
    → All (λ k. listed k ex ≡ true) ids
    → listed id ex ≡ false
    → All (λ k. k ≢ id) ids
not_listed_ne ex id [] h new = tt
not_listed_ne ex id (k ∷ ids) (h, hs) new =
    ((λ e. cc (subst (λ x. listed x ex ≡ true) e h, new)), not_listed_ne ex id ids hs new)

module _ (J : Job) (order : J.Order) where
  pub last_chance-eq-false :
      (n : ℕ) (b : Bool) → last_chance J order n b ≡ false → (n < num_max_attempts) × (b ≡ false)
  unfolding last_chance
  last_chance-eq-false n b h = ground arith

  -- the guard of a round, while a provider is left
  pub record IsPicked (ex : List ProviderIdentifier) (s : Shared J) (g : Guarded J) : Type 0 where
    pub here : listed (J.identifier g.provider) (identifiers J s.guards) ≡ true
    pub new : listed (J.identifier g.provider) ex ≡ false
    pub last : g.is_last_provider ≡ leb (count_eligible ex (identifiers J s.guards)) 1
    pub same : identifiers J g.shared.guards ≡ identifiers J s.guards

  pub select_exists :
      (ex : List ProviderIdentifier) (s : Shared J)
      → 0 < count_eligible ex (identifiers J s.guards)
      → (g : Guarded J) × (select_provider J order none ex s ≡ some g) × IsPicked ex s g
  unfolding select_provider
  select_exists ex s h =
      let (c, e) = choose_guard_exists J order s.provider_metrics ex s.guards h in
      let ok = choose_guard-IsEligible J order s.provider_metrics ex s.guards c e in
      (
        guarded_by J s c,
        rw (e, select_provider) refl,
        record {
          here = ok.listed_provider;
          new = ok.not_excluded;
          last = ap (λ n. leb n 1) ok.counted;
          same = ok.unchanged;
        },
      )

  module _ (ids : List ProviderIdentifier) where
    -- Between two rounds: a provider is left, and no provider was tried twice.
    pub record Inv (r : Run J) : Type 0 where
      pub same : identifiers J r.shared.guards ≡ ids
      pub some_left : 0 < count_eligible r.unsuccessful_providers ids
      pub left : r.num_attempt + count_eligible r.unsuccessful_providers ids ≡ length ids
      pub tried : All (λ id. listed id r.unsuccessful_providers ≡ true) (selected r.messages)
      pub once : Distinct (selected r.messages)
      pub counted : length (selected r.messages) ≡ r.num_attempt

    -- When the loop has ended.
    pub record Done (r : Run J) : Type 0 where
      pub few : r.num_attempt ≤ length ids
      pub once : Distinct (selected r.messages)
      pub counted : length (selected r.messages) ≡ r.num_attempt

    pub after-Done :
        (w : World J) (during : Shared J → Shared J) (r : Run J) (g : Guarded J) (s : Shared J)
        → Inv r
        → IsPicked r.unsuccessful_providers s g
        → Done (after J w during order r g).run
    after-Done w during r g s inv p =
        let num = after-num_attempt J w during order r g in
        let sel = after-selected J w during order r g in
        record {
          few = omega (arith, inv.some_left, inv.left);
          once = rw sel (Distinct-concat _ _ inv.once (not_listed_ne _ _ _ inv.tried p.new));
          counted = omega (
            arith,
            ap length sel,
            length-append (selected r.messages) (J.identifier g.provider ∷ []),
            inv.counted,
          );
        }

    pub after-Inv :
        (w : World J) (during : Shared J → Shared J) (r : Run J) (g : Guarded J) (s : Shared J)
        → Distinct ids
        → KeepsProviders J during
        → identifiers J s.guards ≡ ids
        → Inv r
        → IsPicked r.unsuccessful_providers s g
        → (after J w during order r g).stop ≡ false
        → Inv (after J w during order r g).run
    after-Inv w during r g s distinct keep at inv p go =
        let num = after-num_attempt J w during order r g in
        let sel = after-selected J w during order r g in
        let done = after-Done w during r g s inv p in
        let (few, last) = last_chance-eq-false _ _ (after-stop J w during order r g go) in
        let un = after-unsuccessful J w during order r g go in
        let id = J.identifier g.provider in
        let fewer =
          count_eligible-cons id r.unsuccessful_providers ids distinct (rw at at p.here) p.new in
        record {
          same = after-identifiers J w during order r g keep ∙ p.same ∙ at;
          some_left = rw un (
              ground (arith, fewer, last, p.last, ap (count_eligible r.unsuccessful_providers) at));
          left = rw un (omega (arith, num, fewer, inv.left));
          tried =
              rw (un, sel)
                (All-append _ _ _
                  (All-mono (selected r.messages)
                    (λ k. listed-cons_of k id r.unsuccessful_providers) inv.tried)
                  (listed-cons_self id _, tt));
          once = done.once;
          counted = done.counted;
        }
