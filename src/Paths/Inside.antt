-- ===== src/Paths/Inside.antt =====
-- Where the file of an order lies.
use flexo.Base.{
  ℕ, ◌≡◌, refl, ap, sym, ◌∙◌, true, false, List, [], ◌∷◌, ◌++◌, arith, ◌==◌, all, Bool-cases, inl,
  inr,
}
use mathlib.Core.List.{append_assoc, append-nil}
use flexo.Base.Text.{Text, codes, text_eq, split, split-IsCons, split-append}
use flexo.Paths.{
  slash, Component, root_dir, component_of, body, relative_body, is_absolute, components,
  ends_in_slash, join, is_permitted, permitted_path,
}

body-append : (ps qs : List Text) → body (ps ++ qs) ≡ body ps ++ body qs
unfolding body
body-append [] qs = refl
body-append (p ∷ ps) qs =
    rw (body-append ps qs) (sym (append_assoc (component_of p) (body ps) (body qs)))

-- the components behind a slash
abbrev pub parts : Text → List Component
parts s = body (split slash s)

relative_body-append :
    (s : Text) (qs : List Text)
    → relative_body (split slash s ++ qs) ≡ relative_body (split slash s) ++ body qs
unfolding relative_body
relative_body-append s qs =
    let (p, ps, e) = split-IsCons slash s in
    rw e (elim (Bool-cases (text_eq p (codes "."))) [
      | inl dot ↦ rw (dot, body-append ps qs) refl
      | inr other ↦ rw (other, body-append (p ∷ ps) qs) refl
    ])

components_absolute : (s : Text) → is_absolute s ≡ true → components s ≡ root_dir ∷ parts s
unfolding components
components_absolute s e = rw e refl

components_relative :
    (s : Text) → is_absolute s ≡ false → components s ≡ relative_body (split slash s)
unfolding components
components_relative s e = rw e refl

parts-append : (a b : Text) → parts (a ++ slash ∷ b) ≡ parts a ++ parts b
parts-append a b = rw (split-append slash a b) (body-append (split slash a) (split slash b))

parts_last : (a : Text) → parts (a ++ slash ∷ []) ≡ parts a
unfolding split body component_of
parts_last a = parts-append a [] ∙ append-nil (parts a)

relative-append :
    (a b : Text)
    → relative_body (split slash (a ++ slash ∷ b)) ≡ relative_body (split slash a) ++ parts b
relative-append a b = rw (split-append slash a b) (relative_body-append a (split slash b))

relative_last :
    (a : Text) → relative_body (split slash (a ++ slash ∷ [])) ≡ relative_body (split slash a)
unfolding split body component_of
relative_last a = relative-append a [] ∙ append-nil (relative_body (split slash a))

-- What stands behind a slash is added to the components in front of it.
components-append :
    (x : ℕ) (a b : Text) → components (x ∷ a ++ slash ∷ b) ≡ components (x ∷ a) ++ parts b
unfolding is_absolute
components-append x a b = elim (Bool-cases (x == slash)) [
  | inl e ↦
      rw (components_absolute (x ∷ a ++ slash ∷ b) e, components_absolute (x ∷ a) e)
        (ap (λ cs. root_dir ∷ cs) (parts-append (x ∷ a) b))
  | inr e ↦
      rw (components_relative (x ∷ a ++ slash ∷ b) e, components_relative (x ∷ a) e)
        (relative-append (x ∷ a) b)
]

components_last : (x : ℕ) (a : Text) → components (x ∷ a ++ slash ∷ []) ≡ components (x ∷ a)
unfolding split body component_of
components_last x a = components-append x a [] ∙ append-nil (components (x ∷ a))

-- A text that ends in a slash is one in front of a slash.
ends_in_slash-IsAppend :
    (x : ℕ) (s : Text) → ends_in_slash (x ∷ s) ≡ true → (a : Text) × (x ∷ s ≡ a ++ slash ∷ [])
unfolding ends_in_slash
ends_in_slash-IsAppend x [] h = ([], let same : x ≡ slash = ground arith in rw same refl)
ends_in_slash-IsAppend x (y ∷ ys) h =
    let (a, e) = ends_in_slash-IsAppend y ys h in (x ∷ a, ap (λ s. x ∷ s) e)

components_under :
    (a b : Text) → components (a ++ slash ∷ b) ≡ components (a ++ slash ∷ []) ++ parts b
unfolding components is_absolute split body component_of
components_under [] b = refl
components_under (x ∷ a) b =
    components-append x a b ∙ ap (λ cs. cs ++ parts b) (sym (components_last x a))

-- A relative path is joined behind the base.
pub components-join :
    (x : ℕ) (base path : Text)
    → is_absolute path ≡ false
    → components (join (x ∷ base) path) ≡ components (x ∷ base) ++ parts path
unfolding join
components-join x base path rel = elim (Bool-cases (ends_in_slash (x ∷ base))) [
  | inl e ↦
      let (a, same) = ends_in_slash-IsAppend x base e in
      rw (rel, e)
        (ap (λ s. components (s ++ path)) same
          ∙ ap components (append_assoc a (slash ∷ []) path)
          ∙ components_under a path
          ∙ ap (λ s. components s ++ parts path) (sym same))
  | inr e ↦ rw (rel, e) (components-append x base path)
]

-- A permitted relative path does not start with a dot for the current directory.
pub components_permitted :
    (path : Text)
    → is_absolute path ≡ false
    → permitted_path path ≡ true
    → components path ≡ parts path
unfolding permitted_path relative_body
components_permitted path rel ok =
    let (p, ps, e) = split-IsCons slash path in
    let ok' : all is_permitted (relative_body (p ∷ ps)) ≡ true =
      rw (components_relative path rel, e) at ok in
    rw (components_relative path rel, e)
      (elim (Bool-cases (text_eq p (codes "."))) [
        | inl dot ↦ cc (rw dot at ok')
        | inr other ↦ rw other refl
      ])
