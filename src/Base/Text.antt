-- ===== src/Base/Text.antt =====
-- Texts: the `String`s of the program as lists of bytes, with the operations of `str` it calls.
use Prim.Native.Char.{code}
use Prim.Native.String.{String}
use Prim.Native.Nat.{ℕ}
use mathlib.Core.Path.{◌≡◌, refl, ap}
use mathlib.Core.Logic.{ite, if_pos, inl, inr}
use mathlib.Core.Bool.{Bool, true, false, not}
use mathlib.Core.List.{List, [], ◌∷◌, ◌++◌, reverse, reverse-append, reverse-reverse}
use mathlib.Core.Option.{Option, none, some}
use native.Mathlib.Decide.{ℕ_discrete}
use native.Mathlib.Omega.{arith}
use flexo.Base.Tests.{◌==◌, if◌then◌else◌, Bool-cases}
use flexo.Base.Lists.{all}

abbrev pub Text : Type 0
Text = List ℕ

-- The code points of a literal, which are its bytes as all literals here are ASCII.
abbrev pub codes : String → Text
codes String.[] = []
codes (String.◌∷◌ c s) = code c ∷ codes s

pub head_path : {a b : ℕ} {s t : Text} → a ∷ s ≡ b ∷ t → a ≡ b
head_path h = cc

pub tail_path : {a b : ℕ} {s t : Text} → a ∷ s ≡ b ∷ t → s ≡ t
tail_path h = cc

unfoldable pub Text-discrete : Discrete Text
unfolding ℕ_discrete
Text-discrete [] [] = yes refl
Text-discrete [] (b ∷ t) = no (λ e. cc)
Text-discrete (a ∷ s) [] = no (λ e. cc)
Text-discrete (a ∷ s) (b ∷ t) = elim (ℕ_discrete a b) [
  | yes p ↦ elim (Text-discrete s t) [
    | yes q ↦ yes (λ i. p i ∷ q i)
    | no q ↦ no (λ e. q (tail_path e))
  ]
  | no p ↦ no (λ e. p (head_path e))
]

unfoldable pub text_eq : Text → Text → Bool
unfolding Text-discrete
text_eq s t = ite (Text-discrete s t) true false

-- `s.strip_prefix(p)`.
unfoldable pub strip_prefix : Text → Text → Option Text
unfolding ℕ_discrete
strip_prefix [] s = some s
strip_prefix (a ∷ p) [] = none
strip_prefix (a ∷ p) (b ∷ s) = ite (ℕ_discrete a b) (strip_prefix p s) none

-- `s.strip_suffix(p)`, by prefixes of the reversed texts.
unfoldable pub strip_suffix : Text → Text → Option Text
unfolding strip_prefix
strip_suffix p s = elim (strip_prefix (reverse p) (reverse s)) [
  | none ↦ none
  | some r ↦ some (reverse r)
]

-- `s.ends_with(p)`.
unfoldable pub ends_with : Text → Text → Bool
unfolding strip_suffix
ends_with p s = elim (strip_suffix p s) [ none ↦ false | some _ ↦ true ]

-- the character in front of the first part
abbrev pub cons_head : ℕ → List Text → List Text
cons_head x [] = (x ∷ []) ∷ []
cons_head x (part ∷ parts) = (x ∷ part) ∷ parts

-- `s.split(c)`
unfoldable pub split : ℕ → Text → List Text
split c [] = [] ∷ []
split c (x ∷ xs) = let rest = split c xs in if x == c then [] ∷ rest else cons_head x rest

-- the part in front of the first `c`
unfoldable pub before : ℕ → Text → Text
before c [] = []
before c (x ∷ s) = let rest = before c s in if x == c then [] else x ∷ rest

pub cons_head-IsCons :
    (x : ℕ) (ps : List Text) → (q : Text) × (qs : List Text) × (cons_head x ps ≡ q ∷ qs)
cons_head-IsCons x [] = (x ∷ [], [], refl)
cons_head-IsCons x (p ∷ ps) = (x ∷ p, ps, refl)

pub split-IsCons : (c : ℕ) (s : Text) → (p : Text) × (ps : List Text) × (split c s ≡ p ∷ ps)
unfolding split
split-IsCons c [] = ([], [], refl)
split-IsCons c (x ∷ xs) = elim (Bool-cases (x == c)) [
  | inl e ↦ rw e ([], split c xs, refl)
  | inr e ↦ rw e (cons_head-IsCons x (split c xs))
]

cons_head-append :
    (c x : ℕ) (s : Text) (qs : List Text)
    → cons_head x (split c s ++ qs) ≡ cons_head x (split c s) ++ qs
cons_head-append c x s qs = let (p, ps, e) = split-IsCons c s in rw e refl

same_char : (c : ℕ) → (c == c) ≡ true
same_char c = ground arith

pub split-append : (c : ℕ) (a b : Text) → split c (a ++ c ∷ b) ≡ split c a ++ split c b
unfolding split
split-append c [] b = rw (same_char c) refl
split-append c (x ∷ a) b = elim (Bool-cases (x == c)) [
  | inl e ↦ rw (e, split-append c a b) refl
  | inr e ↦ rw (e, split-append c a b) (cons_head-append c x a (split c b))
]

-- a text without `c` is a single part
pub split_without : (c : ℕ) (s : Text) → all (λ x. not (x == c)) s ≡ true → split c s ≡ s ∷ []
unfolding split
split_without c [] h = refl
split_without c (x ∷ s) h =
    let (first, rest) : ((x == c) ≡ false) × (all (λ y. not (y == c)) s ≡ true) = ground arith in
    rw (first, split_without c s rest) refl

pub before_without :
    (c : ℕ) (s t : Text) → all (λ x. not (x == c)) s ≡ true → before c (s ++ c ∷ t) ≡ s
unfolding before
before_without c [] t h = rw (same_char c) refl
before_without c (x ∷ s) t h =
    let (first, rest) : ((x == c) ≡ false) × (all (λ y. not (y == c)) s ≡ true) = ground arith in
    rw (first, before_without c s t rest) refl

pub strip_prefix-append : (p s : Text) → strip_prefix p (p ++ s) ≡ some s
unfolding strip_prefix
strip_prefix-append [] s = refl
strip_prefix-append (c ∷ p) s = rw (if_pos (ℕ_discrete c c) refl) (strip_prefix-append p s)

pub strip_suffix-append : (p s : Text) → strip_suffix p (s ++ p) ≡ some s
unfolding strip_suffix
strip_suffix-append p s =
    rw (reverse-append s p, strip_suffix)
      (rw (strip_prefix-append (reverse p) (reverse s), strip_suffix) (ap some (reverse-reverse s)))
