-- ===== src/Request/Range.antt =====
-- The start of a range, in the header that asks for it.
use flexo.Base.{
  ℕ, ◌^◌, ◌<◌, ◌≡◌, refl, ap, ◌∙◌, true, not, [], ◌∷◌, ◌++◌, map, none, arith, ◌==◌, all,
  ℕ_discrete,
}
use flexo.Base.Text.{Text, codes, strip_prefix, before, before_without}
use flexo.Base.Decimal.{
  is_ascii_digit, to_decimal, all-digits-to_decimal, parse_u64, parse_u64-to_decimal,
}
use flexo.Job.{ok}
use flexo.Transfer.{to_ascii_lowercase}
use flexo.Request.{delete, start_of, parse_range_header_value}

lowercase_digits : (s : Text) → all is_ascii_digit s ≡ true → map to_ascii_lowercase s ≡ s
lowercase_digits [] h = refl
lowercase_digits (c ∷ s) h = ground (arith, lowercase_digits s)

digits_no_minus : (s : Text) → all is_ascii_digit s ≡ true → all (λ x. not (x == 45)) s ≡ true
digits_no_minus [] h = refl
digits_no_minus (c ∷ s) h = ground (arith, digits_no_minus s)

digit_no_prefix :
    (c : ℕ) (s : Text) → is_ascii_digit c ≡ true → strip_prefix (codes "bytes=") (c ∷ s) ≡ none
unfolding strip_prefix
digit_no_prefix c s h = ground arith

delete_digits : (s : Text) → all is_ascii_digit s ≡ true → delete (codes "bytes=") 0 s ≡ s
unfolding delete
delete_digits [] h = refl
delete_digits (c ∷ s) h =
    let (first, rest) : (is_ascii_digit c ≡ true) × (all is_ascii_digit s ≡ true) = ground arith in
    rw (digit_no_prefix c s first, delete) (ap (λ t. c ∷ t) (delete_digits s rest))

delete_first :
    (s : Text) → delete (codes "bytes=") 0 (codes "bytes=" ++ s) ≡ delete (codes "bytes=") 0 s
unfolding delete strip_prefix ℕ_discrete
delete_first s = refl

lowercase_append :
    (s t : Text)
    → all is_ascii_digit s ≡ true
    → map to_ascii_lowercase (s ++ 45 ∷ t) ≡ s ++ 45 ∷ map to_ascii_lowercase t
lowercase_append [] t h = refl
lowercase_append (c ∷ s) t h = ground (arith, lowercase_append s t)

range_start :
    (d end : Text)
    → all is_ascii_digit d ≡ true
    → before 45 (map to_ascii_lowercase (codes "bytes=" ++ (d ++ 45 ∷ end))) ≡ codes "bytes=" ++ d
unfolding before
range_start d end h =
    ap (λ t. codes "bytes=" ++ t)
      (ap (before 45) (lowercase_append d end h)
        ∙ before_without 45 d (map to_ascii_lowercase end) (digits_no_minus d h))

-- A range from some start on, of 64 bits, is read as that start, whatever its end.
pub parse_range_header_value-to_decimal :
    (n : ℕ) (end : Text)
    → n < 2 ^ 64
    → parse_range_header_value (codes "bytes=" ++ (to_decimal n ++ 45 ∷ end)) ≡ ok n
unfolding parse_range_header_value start_of
parse_range_header_value-to_decimal n end h =
    let d = to_decimal n in
    let digits = all-digits-to_decimal n in
    ap (λ t. start_of (parse_u64 (delete (codes "bytes=") 0 t))) (range_start d end digits)
    ∙ ap (λ t. start_of (parse_u64 t)) (delete_first d ∙ delete_digits d digits)
    ∙ ap start_of (parse_u64-to_decimal n h)
