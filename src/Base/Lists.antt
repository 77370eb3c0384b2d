-- ===== src/Base/Lists.antt =====
-- Lists measured by native numbers, predicates over them by recursion, and sets as lists.
use Prim.Native.Nat.{ℕ, zero, suc, ◌+◌}
use mathlib.Core.Path.{◌≡◌, refl}
use mathlib.Core.Logic.{◌≢◌, ◌⊎◌, inl, inr}
use mathlib.Core.Bool.{Bool, true, false, ◌&&◌, ◌||◌}
use mathlib.Core.List.{List, [], ◌∷◌, ◌++◌}
use mathlib.Core.Option.{Option, none, some}
use native.Mathlib.Omega.{arith}

module _ {ℓ} {A : Type ℓ} where
  abbrev pub length : List A → ℕ
  length [] = 0
  length (x ∷ xs) = suc (length xs)

  abbrev pub get_elem? : List A → ℕ → Option A
  get_elem? [] i = none
  get_elem? (x ∷ xs) zero = some x
  get_elem? (x ∷ xs) (suc i) = get_elem? xs i

  abbrev pub take : ℕ → List A → List A
  take zero xs = []
  take (suc n) [] = []
  take (suc n) (x ∷ xs) = x ∷ take n xs

  abbrev pub drop : ℕ → List A → List A
  drop zero xs = xs
  drop (suc n) [] = []
  drop (suc n) (x ∷ xs) = drop n xs

  abbrev pub all : (A → Bool) → List A → Bool
  all p [] = true
  all p (x ∷ xs) = p x && all p xs

  abbrev pub any : (A → Bool) → List A → Bool
  any p [] = false
  any p (x ∷ xs) = p x || any p xs

  pub length-append : (xs ys : List A) → length (xs ++ ys) ≡ length xs + length ys
  length-append [] ys = omega arith
  length-append (x ∷ xs) ys = omega (arith, length-append xs ys)

-- `filter` of an iterator, by a Boolean test.
module _ {ℓ} {A : Type ℓ} where
  abbrev pub keep_if : (A → Bool) → List A → List A
  keep_if p [] = []
  keep_if p (x ∷ xs) = let rest = keep_if p xs in elim (p x) [ true ↦ x ∷ rest | false ↦ rest ]

module _ {ℓ κ} {A : Type ℓ} (P : A → Type κ) where
  abbrev pub All : List A → Type κ
  All [] = Unit
  All (x ∷ xs) = P x × All xs

  pub All-append : (xs ys : List A) → All xs → All ys → All (xs ++ ys)
  All-append [] ys h k = k
  All-append (x ∷ xs) ys (p, h) k = (p, All-append xs ys h k)

pub All-mono {ℓ κ μ} :
    {A : Type ℓ} {P : A → Type κ} {Q : A → Type μ} (xs : List A)
    → ((x : A) → P x → Q x)
    → All P xs
    → All Q xs
All-mono [] f h = tt
All-mono (x ∷ xs) f (p, h) = (f x p, All-mono xs f h)

module _ {ℓ} {A : Type ℓ} where
  abbrev pub Any : (A → Type 0) → List A → Type 0
  Any P [] = ⊥
  Any P (x ∷ xs) = P x ⊎ Any P xs

  -- What holds of all holds of the one that `Any` speaks of.
  pub Any-All {μ ν} :
      {P : A → Type 0} {Q : A → Type μ} {R : Type ν} (xs : List A)
      → Any P xs
      → All Q xs
      → ((x : A) → P x → Q x → R)
      → R
  Any-All (x ∷ xs) (inl p) (q, _) f = f x p q
  Any-All (x ∷ xs) (inr h) (_, k) f = Any-All xs h k f
  Any-All [] h k f = absurd h

-- `x` does not stand in the list; no element stands in it twice.
module _ {ℓ} {A : Type ℓ} where
  abbrev pub NotIn : A → List A → Type ℓ
  NotIn x [] = Unit
  NotIn x (y ∷ ys) = (x ≢ y) × NotIn x ys

  abbrev pub Distinct : List A → Type ℓ
  Distinct [] = Unit
  Distinct (x ∷ xs) = NotIn x xs × Distinct xs

-- A `HashSet` as a list.
module _ {ℓ} {A : Type ℓ} (dec : Discrete A) where
  unfoldable pub contains : A → List A → Bool
  contains x [] = false
  contains x (y ∷ ys) = elim (dec x y) [ yes _ ↦ true | no _ ↦ contains x ys ]

  unfoldable pub remove : A → List A → List A
  remove x [] = []
  remove x (y ∷ ys) = elim (dec x y) [ yes _ ↦ remove x ys | no _ ↦ y ∷ remove x ys ]

  pub contains-NotIn : (x : A) (ys : List A) → contains x ys ≡ false → NotIn x ys
  unfolding contains
  contains-NotIn x [] h = tt
  contains-NotIn x (y ∷ ys) h = ground (arith, contains-NotIn x ys)

  pub NotIn-contains : (x : A) (ys : List A) → NotIn x ys → contains x ys ≡ false
  unfolding contains
  NotIn-contains x [] h = refl
  NotIn-contains x (y ∷ ys) h = ground (arith, NotIn-contains x ys h.1)

  pub contains-remove_self : (x : A) (ys : List A) → contains x (remove x ys) ≡ false
  unfolding contains remove
  contains-remove_self x [] = refl
  contains-remove_self x (y ∷ ys) = ground (arith, contains-remove_self x ys)

  pub contains-remove_ne :
      (x y : A) (ys : List A) → x ≢ y → contains x (remove y ys) ≡ contains x ys
  unfolding contains remove
  contains-remove_ne x y [] h = refl
  contains-remove_ne x y (z ∷ zs) h = ground (arith, contains-remove_ne x y zs h)

  pub remove_absent : (x : A) (ys : List A) → NotIn x ys → remove x ys ≡ ys
  unfolding remove
  remove_absent x [] h = refl
  remove_absent x (y ∷ ys) h = ground (arith, remove_absent x ys h.1)

  pub NotIn-remove : (x y : A) (ys : List A) → NotIn x ys → NotIn x (remove y ys)
  unfolding remove
  NotIn-remove x y [] h = tt
  NotIn-remove x y (z ∷ zs) h = ground (arith, NotIn-remove x y zs h.1)

  pub remove-Distinct : (x : A) (ys : List A) → Distinct ys → Distinct (remove x ys)
  unfolding remove
  remove-Distinct x [] h = tt
  remove-Distinct x (y ∷ ys) h = ground (arith, remove-Distinct x ys h.1, NotIn-remove y x ys h.0)
