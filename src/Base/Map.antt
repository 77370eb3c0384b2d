-- ===== src/Base/Map.antt =====
-- A `HashMap` as an association list, in which a key may stand once.
use mathlib.Core.Path.{◌≡◌}
use mathlib.Core.Logic.{ite}
use mathlib.Core.List.{List, [], ◌∷◌}
use mathlib.Core.Option.{Option, none, some}
use native.Mathlib.Omega.{arith}

abbrev pub HashMap {ℓ κ} : Type ℓ → Type κ → Type (ℓ ⊔ κ)
HashMap K V = List (K × V)

module _ {ℓ κ} {K : Type ℓ} {V : Type κ} (dec : Discrete K) where
  unfoldable pub get : K → HashMap K V → Option V
  get k [] = none
  get k ((j, v) ∷ m) = elim (dec k j) [ yes _ ↦ some v | no _ ↦ get k m ]

  unfoldable pub insert : K → V → HashMap K V → HashMap K V
  insert k v [] = (k, v) ∷ []
  insert k v ((j, w) ∷ m) = elim (dec k j) [ yes _ ↦ (k, v) ∷ m | no _ ↦ (j, w) ∷ insert k v m ]

  unfoldable pub remove : K → HashMap K V → HashMap K V
  remove k [] = []
  remove k ((j, w) ∷ m) = elim (dec k j) [ yes _ ↦ remove k m | no _ ↦ (j, w) ∷ remove k m ]

  -- `entry(k).and_modify(f).or_insert(v)`
  unfoldable pub modify_or_insert : K → (V → V) → V → HashMap K V → HashMap K V
  modify_or_insert k f v [] = (k, v) ∷ []
  modify_or_insert k f v ((j, w) ∷ m) = elim (dec k j) [
    | yes _ ↦ (j, f w) ∷ m
    | no _ ↦ (j, w) ∷ modify_or_insert k f v m
  ]

  -- The value that `modify_or_insert` leaves under its key.
  abbrev pub updated : (V → V) → V → Option V → V
  updated f v none = v
  updated f v (some w) = f w

  pub get-insert :
      (k j : K) (v : V) (m : HashMap K V) → get k (insert j v m) ≡ ite (dec k j) (some v) (get k m)
  unfolding get insert
  get-insert k j v [] = ground arith
  get-insert k j v ((i, w) ∷ m) = ground (arith, get-insert k j v m)

  pub get-remove : (k j : K) (m : HashMap K V) → get k (remove j m) ≡ ite (dec k j) none (get k m)
  unfolding get remove
  get-remove k j [] = ground arith
  get-remove k j ((i, w) ∷ m) = ground (arith, get-remove k j m)

  pub get-modify_or_insert :
      (k j : K) (f : V → V) (v : V) (m : HashMap K V)
      → get k (modify_or_insert j f v m) ≡ ite (dec k j) (some (updated f v (get j m))) (get k m)
  unfolding get modify_or_insert
  get-modify_or_insert k j f v [] = ground arith
  get-modify_or_insert k j f v ((i, w) ∷ m) = ground (arith, get-modify_or_insert k j f v m)
