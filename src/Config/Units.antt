-- ===== src/Config/Units.antt =====
-- The units that a bandwidth may have.
use flexo.Base.{
  ℕ, ◌*◌, ◌^◌, ◌<◌, ◌≡◌, refl, ◌/◌, List, [], ◌∷◌, ◌++◌, some, arith, All, Any, Any-All, ap, subst,
  ◌∙◌,
}
use native.Mathlib.Decide.{ℕ_discrete}
use flexo.Base.Text.{Text, Text-discrete, codes, text_eq, strip_prefix, strip_suffix}
use flexo.Metrics.{u32}
use flexo.Config.{multiplier, in_bytes, parse_si_unit}

-- Each prefix with its factor.
abbrev pub prefixes : List (Text × ℕ)
prefixes =
    (codes "", 1)
    ∷ (codes "k", 10 ^ 3)
    ∷ (codes "m", 10 ^ 6)
    ∷ (codes "g", 10 ^ 9)
    ∷ (codes "ki", 2 ^ 10)
    ∷ (codes "mi", 2 ^ 20)
    ∷ (codes "gi", 2 ^ 30)
    ∷ []

-- what a prefix means for a value, up to wrapping
abbrev Means : ℕ → Text × ℕ → Type 0
Means v p =
    (parse_si_unit v (p.0 ++ codes "b") ≡ some (u32 (v * p.1)))
    × (parse_si_unit v (p.0 ++ codes "bit") ≡ some (u32 (v * p.1) / 8))

wrapped : (v : ℕ) → All (Means v) prefixes
unfolding parse_si_unit multiplier in_bytes text_eq Text-discrete ℕ_discrete strip_prefix
    strip_suffix
wrapped v = (
  (refl, refl),
  (
    (refl, refl),
    ((refl, refl), ((refl, refl), ((refl, refl), ((refl, refl), ((refl, refl), tt))))),
  ),
)

-- A bandwidth with a unit is read as its number of bytes for each of the prefixes, binary and decimal,
-- for bits (an eighth, rounded down) and for bytes, as long as the product fits into 32 bits.
pub parse_si_unit-eq-some :
    (v : ℕ) (si_prefix : Text) (factor : ℕ)
    → Any (λ (p : Text × ℕ). (p.0 ≡ si_prefix) × (p.1 ≡ factor)) prefixes
    → v * factor < 2 ^ 32
    → (parse_si_unit v (si_prefix ++ codes "b") ≡ some (v * factor))
      × (parse_si_unit v (si_prefix ++ codes "bit") ≡ some (v * factor / 8))
parse_si_unit-eq-some v si_prefix factor member small =
    Any-All prefixes member (wrapped v)
      (λ (p : Text × ℕ) (same : (p.0 ≡ si_prefix) × (p.1 ≡ factor)) (h : Means v p).
        let fits : u32 (v * factor) ≡ v * factor = omega (arith, small) in
        let (bytes, bits) =
          subst (λ f. Means v (si_prefix, f)) same.1 (subst (λ t. Means v (t, p.1)) same.0 h) in
        (bytes ∙ ap some fits, bits ∙ ap (λ n. some (n / 8)) fits))
