-- ===== src/Rating/Counts.antt =====
-- How often a list has what a test accepts.
use flexo.Base.{
  ℕ, zero, suc, ◌+◌, ◌≤◌, ◌≡◌, refl, ite, Bool, true, false, List, [], ◌∷◌, ◌++◌, map, arith, any,
  take, keep_if, Bool-cases, inl, inr, if◌then◌else◌,
}
use flexo.Base.Text.{Text, Text-discrete, text_eq}
use flexo.Rating.{Limit, no_limit, limit, limited}

-- How many elements a test accepts.
abbrev pub count : {A : Type 0} → (A → Bool) → List A → ℕ
count p [] = 0
count p (x ∷ xs) = (if p x then 1 else 0) + count p xs

module _ {A : Type 0} (p : A → Bool) where
  pub count-append : (xs ys : List A) → count p (xs ++ ys) ≡ count p xs + count p ys
  count-append [] ys = omega arith
  count-append (x ∷ xs) ys = omega (arith, count-append xs ys)

  pub count-keep_if : (q : A → Bool) (xs : List A) → count p (keep_if q xs) ≤ count p xs
  count-keep_if q [] = omega arith
  count-keep_if q (x ∷ xs) =
      let ih = count-keep_if q xs in
      elim (Bool-cases (q x)) [
        | inl kept ↦ rw (kept, count, keep_if) (omega (arith, ih))
        | inr left_out ↦ rw (left_out, count, keep_if) (omega (arith, ih))
      ]

  pub count-take : (n : ℕ) (xs : List A) → count p (take n xs) ≤ count p xs
  count-take zero xs = omega arith
  count-take (suc n) [] = omega arith
  count-take (suc n) (x ∷ xs) = omega (arith, count-take n xs)

  pub count-limited : (l : Limit) (xs : List A) → count p (limited l xs) ≤ count p xs
  count-limited no_limit xs = omega arith
  count-limited (limit l) xs = count-take l xs

pub count-map :
    {A B : Type 0} (p : B → Bool) (f : A → B) (xs : List A)
    → count p (map f xs) ≡ count (λ x. p (f x)) xs
count-map p f [] = refl
count-map p f (x ∷ xs) = omega (arith, count-map p f xs)

of_ite : {P : Type 0} (d : Dec P) → ite d true false ≡ true → P
of_ite (yes h) e = h
of_ite (no n) e = cc

ite_of : {P : Type 0} (d : Dec P) → P → ite d true false ≡ true
ite_of (yes h) p = refl
ite_of (no n) p = absurd (n p)

pub same_text : (s t : Text) → s ≡ t → text_eq s t ≡ true
unfolding text_eq
same_text s t e = ite_of (Text-discrete s t) e

pub text_eq-eq-true : (s t : Text) → text_eq s t ≡ true → s ≡ t
unfolding text_eq
text_eq-eq-true s t h = of_ite (Text-discrete s t) h

pub none_accepted : {A : Type 0} (p : A → Bool) (xs : List A) → any p xs ≡ false → count p xs ≡ 0
none_accepted p [] h = refl
none_accepted p (x ∷ xs) h = ground (arith, none_accepted p xs)
