-- ===== src/Guards.antt =====
-- flexo/src/provider_guards.rs: the providers behind reference counts, and the choice of the best.
-- An `Arc<P>` is its value and its strong count; a handle to it is its place in the vector.
-- The mutex around the choice makes it one step.
pub mod Choice
pub mod Usages
use flexo.Base.{
  ℕ, zero, suc, ◌+◌, ◌-◌, ◌≡◌, Bool, true, false, List, [], ◌∷◌, map, Option, none, some, length,
  if◌then◌else◌,
}

-- What `Ord` promises of a score.
pub record Ord {ℓ} (O : Type ℓ) : Type ℓ where
  pub le : O → O → Bool
  pub le_total : (a b : O) → le a b ≡ false → le b a ≡ true
  pub le_trans : (a b c : O) → le a b ≡ true → le b c ≡ true → le a c ≡ true

pub data ProviderChoice {ℓ} (O : Type ℓ) : Type ℓ where
  include : O → ProviderChoice O
  exclude : ProviderChoice O

pub record ProviderGuard {ℓ} (P : Type ℓ) : Type ℓ where
  pub guarded_provider : P
  pub strong_count : ℕ

abbrev pub num_current_usages {ℓ} : {P : Type ℓ} → ProviderGuard P → ℕ
num_current_usages g = g.strong_count

-- `ProviderGuard::new`: a fresh `Arc` with one owner.
abbrev pub new_guard {ℓ} : {P : Type ℓ} → P → ProviderGuard P
new_guard p = record { guarded_provider = p; strong_count = 1 }

-- `ProviderGuards::new`.
abbrev pub new_guards {ℓ} : {P : Type ℓ} → List P → List (ProviderGuard P)
new_guards items = map new_guard items

pub record Scored {ℓ κ} (P : Type ℓ) (O : Type κ) : Type (ℓ ⊔ κ) where
  pub index : ℕ
  pub guard : ProviderGuard P
  pub score : O

-- The guard that is handed out, how many providers were eligible, and the guards afterwards.
pub record Selected {ℓ} (P : Type ℓ) : Type ℓ where
  pub index : ℕ
  pub provider : P
  pub num_remaining : ℕ
  pub guards : List (ProviderGuard P)

module _ {ℓ κ} {P : Type ℓ} {O : Type κ} where
  -- the `filter_map` over the guards, which stand from place `i` on
  unfoldable pub guards_with_scores :
      (P → ℕ → ProviderChoice O) → ℕ → List (ProviderGuard P) → List (Scored P O)
  guards_with_scores mirror_score i [] = []
  guards_with_scores mirror_score i (g ∷ gs) =
      let rest = guards_with_scores mirror_score (suc i) gs in
      elim (mirror_score g.guarded_provider (num_current_usages g)) [
        | include score ↦ record { index = i; guard = g; score = score } ∷ rest
        | exclude ↦ rest
      ]

  module _ ⦃o : Ord O⦄ where
    -- Of two equal scores `min_by_key` keeps the first.
    unfoldable pub better : Scored P O → Scored P O → Scored P O
    better best x = if o.le best.score x.score then best else x

    unfoldable pub min_from : Scored P O → List (Scored P O) → Scored P O
    unfolding better
    min_from best [] = best
    min_from best (x ∷ xs) = min_from (better best x) xs

    unfoldable pub min_by_key : List (Scored P O) → Option (Scored P O)
    unfolding min_from
    min_by_key [] = none
    min_by_key (x ∷ xs) = some (min_from x xs)

-- `Arc::clone` and the drop of a clone, at a place of the vector.
module _ {ℓ} {P : Type ℓ} where
  unfoldable pub clone_at : ℕ → List (ProviderGuard P) → List (ProviderGuard P)
  clone_at i [] = []
  clone_at zero (g ∷ gs) = record g { strong_count = g.strong_count + 1 } ∷ gs
  clone_at (suc i) (g ∷ gs) = g ∷ clone_at i gs

  unfoldable pub drop_at : ℕ → List (ProviderGuard P) → List (ProviderGuard P)
  drop_at i [] = []
  drop_at zero (g ∷ gs) = record g { strong_count = g.strong_count - 1 } ∷ gs
  drop_at (suc i) (g ∷ gs) = g ∷ drop_at i gs

abbrev pub hand_out {ℓ κ} :
    {P : Type ℓ} {O : Type κ} → List (ProviderGuard P) → ℕ → Scored P O → Selected P
hand_out guards num_remaining s = record {
  index = s.index;
  provider = s.guard.guarded_provider;
  num_remaining = num_remaining;
  guards = clone_at s.index guards;
}

-- `none` is the panic of `unwrap`, when every provider is excluded.
unfoldable pub pick {ℓ κ} :
    {P : Type ℓ} {O : Type κ} ⦃o : Ord O⦄
    → List (ProviderGuard P)
    → List (Scored P O)
    → Option (Selected P)
unfolding min_by_key
pick guards scored = elim (min_by_key scored) [
  | none ↦ none
  | some s ↦ some (hand_out guards (length scored) s)
]

unfoldable pub get_provider_guard {ℓ κ} :
    {P : Type ℓ} {O : Type κ} ⦃o : Ord O⦄
    → (P → ℕ → ProviderChoice O)
    → List (ProviderGuard P)
    → Option (Selected P)
unfolding pick
get_provider_guard mirror_score guards = pick guards (guards_with_scores mirror_score 0 guards)
