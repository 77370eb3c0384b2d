-- ===== src/Guards/Usages.antt =====
-- What the strong counts count: the vector's own handle and each guard that is handed out.
use flexo.Base.{
  ℕ, zero, suc, ◌+◌, ◌-◌, ◌<◌, ◌≡◌, refl, List, [], ◌∷◌, map, some, arith, get_elem?, ◌==◌,
  if◌then◌else◌,
}
use flexo.Guards.{
  Ord, ProviderChoice, ProviderGuard, Selected, new_guards, clone_at, drop_at, get_provider_guard,
}
use flexo.Guards.Choice.{get_provider_guard-clone_at, get_provider_guard-IsBest}

module _ {P : Type 0} where
  abbrev pub providers : List (ProviderGuard P) → List P
  providers = map (λ g. g.guarded_provider)

  pub providers-clone_at :
      (i : ℕ) (gs : List (ProviderGuard P)) → providers (clone_at i gs) ≡ providers gs
  unfolding clone_at
  providers-clone_at i [] = refl
  providers-clone_at zero (g ∷ gs) = refl
  providers-clone_at (suc i) (g ∷ gs) = rw (providers-clone_at i gs)

  pub providers-drop_at :
      (i : ℕ) (gs : List (ProviderGuard P)) → providers (drop_at i gs) ≡ providers gs
  unfolding drop_at
  providers-drop_at i [] = refl
  providers-drop_at zero (g ∷ gs) = refl
  providers-drop_at (suc i) (g ∷ gs) = rw (providers-drop_at i gs)

  pub providers-new_guards : (ps : List P) → providers (new_guards ps) ≡ ps
  providers-new_guards [] = refl
  providers-new_guards (p ∷ ps) = rw (providers-new_guards ps)

  -- the strong count at a place
  abbrev pub count_at : ℕ → List (ProviderGuard P) → ℕ
  count_at i [] = 0
  count_at zero (g ∷ gs) = g.strong_count
  count_at (suc i) (g ∷ gs) = count_at i gs

  -- a place of the vector
  abbrev pub InRange : ℕ → List (ProviderGuard P) → Type 0
  InRange i [] = ⊥
  InRange zero (g ∷ gs) = Unit {0}
  InRange (suc i) (g ∷ gs) = InRange i gs

  get_elem-InRange :
      (i : ℕ) (gs : List (ProviderGuard P)) {g : ProviderGuard P}
      → get_elem? gs i ≡ some g
      → InRange i gs
  get_elem-InRange i [] e = cc
  get_elem-InRange zero (h ∷ gs) e = tt
  get_elem-InRange (suc i) (h ∷ gs) e = get_elem-InRange i gs e

  clone_at-InRange :
      (i j : ℕ) (gs : List (ProviderGuard P)) → InRange i (clone_at j gs) → InRange i gs
  unfolding clone_at
  clone_at-InRange zero j (g ∷ gs) h = tt
  clone_at-InRange (suc i) zero (g ∷ gs) h = h
  clone_at-InRange (suc i) (suc j) (g ∷ gs) h = clone_at-InRange i j gs h
  clone_at-InRange _ _ [] h = h

  drop_at-InRange :
      (i j : ℕ) (gs : List (ProviderGuard P)) → InRange i (drop_at j gs) → InRange i gs
  unfolding drop_at
  drop_at-InRange zero j (g ∷ gs) h = tt
  drop_at-InRange (suc i) zero (g ∷ gs) h = h
  drop_at-InRange (suc i) (suc j) (g ∷ gs) h = drop_at-InRange i j gs h
  drop_at-InRange _ _ [] h = h

  count_at-clone_at :
      (i j : ℕ) (gs : List (ProviderGuard P))
      → InRange i gs
      → count_at j (clone_at i gs) ≡ count_at j gs + (if i == j then 1 else 0)
  unfolding clone_at
  count_at-clone_at zero zero (g ∷ gs) h = refl
  count_at-clone_at zero (suc j) (g ∷ gs) h = ground arith
  count_at-clone_at (suc i) zero (g ∷ gs) h = ground arith
  count_at-clone_at (suc i) (suc j) (g ∷ gs) h = ground (arith, count_at-clone_at i j gs h)
  count_at-clone_at _ _ [] h = absurd h

  count_at-drop_at :
      (i j : ℕ) (gs : List (ProviderGuard P))
      → count_at j (drop_at i gs) ≡ count_at j gs - (if i == j then 1 else 0)
  unfolding drop_at
  count_at-drop_at i j [] = omega arith
  count_at-drop_at zero zero (g ∷ gs) = refl
  count_at-drop_at zero (suc j) (g ∷ gs) = ground arith
  count_at-drop_at (suc i) zero (g ∷ gs) = ground arith
  count_at-drop_at (suc i) (suc j) (g ∷ gs) = ground (arith, count_at-drop_at i j gs)

  pub drop_at-clone_at : (i : ℕ) (gs : List (ProviderGuard P)) → drop_at i (clone_at i gs) ≡ gs
  unfolding drop_at clone_at
  drop_at-clone_at i [] = refl
  drop_at-clone_at zero (g ∷ gs) = ground arith
  drop_at-clone_at (suc i) (g ∷ gs) = rw (drop_at-clone_at i gs)

-- The guards of the vector, and the places of the clones that threads hold.
pub record InUse (P : Type 0) : Type 0 where
  pub guards : List (ProviderGuard P)
  pub held : List ℕ

abbrev pub times : ℕ → List ℕ → ℕ
times j [] = 0
times j (i ∷ is) = times j is + (if i == j then 1 else 0)

-- the list without one occurrence
abbrev pub drop_one : ℕ → List ℕ → List ℕ
drop_one i [] = []
drop_one i (j ∷ js) = if j == i then js else j ∷ drop_one i js

times-drop_one :
    (i j : ℕ) (is : List ℕ)
    → 0 < times i is
    → times j (drop_one i is) + (if i == j then 1 else 0) ≡ times j is
times-drop_one i j [] h = absurd (omega arith)
times-drop_one i j (k ∷ is) h = ground (arith, times-drop_one i j is)

module _ {P : Type 0} (O : Type 0) ⦃o : Ord O⦄ where
  -- A thread takes a guard under a score of its own, or drops one that it holds.
  pub data Step (s t : InUse P) : Type 0 where
    taken :
        (mirror_score : P → ℕ → ProviderChoice O) (sel : Selected P)
        → get_provider_guard mirror_score s.guards ≡ some sel
        → t ≡ record { guards = sel.guards; held = sel.index ∷ s.held }
        → Step s t
    dropped :
        (i : ℕ)
        → 0 < times i s.held
        → t ≡ record { guards = drop_at i s.guards; held = drop_one i s.held }
        → Step s t

  pub data Reach (s : InUse P) : InUse P → Type 0 where
    start : Reach s s
    later : {t u : InUse P} → Reach s t → Step t u → Reach s u

-- Each strong count is one more than the number of guards in use at its place.
module _ {P : Type 0} where
  abbrev pub IsCounted : InUse P → Type 0
  IsCounted s = (j : ℕ) → InRange j s.guards → count_at j s.guards ≡ 1 + times j s.held

  new-IsCounted : (ps : List P) → IsCounted (record { guards = new_guards ps; held = [] })
  new-IsCounted (p ∷ ps) zero h = refl
  new-IsCounted (p ∷ ps) (suc j) h = new-IsCounted ps j h
  new-IsCounted [] j h = absurd h

module _ {P O : Type 0} ⦃o : Ord O⦄ where
  Step-IsCounted : {s t : InUse P} → Step O s t → IsCounted s → IsCounted t
  Step-IsCounted {s} (taken f sel e same) c =
      let (now, _) = get_provider_guard-clone_at f s.guards sel e in
      let stands =
        get_elem-InRange sel.index s.guards (get_provider_guard-IsBest f s.guards sel e).stands in
      rw (same, now)
        λ j h. omega (
          arith,
          count_at-clone_at sel.index j s.guards stands,
          c j (clone_at-InRange j sel.index s.guards h),
        )
  Step-IsCounted {s} (dropped i lt same) c = rw same λ j h. omega (
    arith,
    count_at-drop_at i j s.guards,
    times-drop_one i j s.held lt,
    c j (drop_at-InRange j i s.guards h),
  )

  Reach-IsCounted : {s t : InUse P} → IsCounted s → Reach O s t → IsCounted t
  Reach-IsCounted c start = c
  Reach-IsCounted c (later r st) = Step-IsCounted st (Reach-IsCounted c r)

  -- From fresh guards on, whatever guards threads take under whatever scores and drop again, each
  -- strong count is one more than the number of guards in use of that provider.
  pub Reach-new-IsCounted :
      (ps : List P) (t : InUse P)
      → Reach O (record { guards = new_guards ps; held = [] }) t
      → (j : ℕ) → InRange j t.guards
      → count_at j t.guards ≡ 1 + times j t.held
  Reach-new-IsCounted ps t r = Reach-IsCounted (new-IsCounted ps) r
