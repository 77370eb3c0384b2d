-- ===== src/Headers/Declared.antt =====
-- What a client reads in a header.
use mathlib.Core.List.{append_assoc}
use flexo.Base.{
  ℕ, ◌^◌, ◌<◌, ◌≡◌, refl, ap, sym, ◌∙◌, Bool, true, not, ◌&&◌, List, [], ◌∷◌, ◌++◌, map, Option,
  none, some, arith, ◌==◌, all, All, ℕ_discrete,
}
use flexo.Base.Text.{
  Text, codes, strip_prefix, split, split-append, split_without, before, before_without,
}
use flexo.Base.Decimal.{
  is_ascii_digit, to_decimal, parse_u64, parse_u64-to_decimal, all-digits-to_decimal,
}
use flexo.Headers.{
  PayloadOrigin, cache, remote_mirror, no_payload, origin_name, lines_text, content_range_header,
  reply_header,
}

-- the value of the first line with a name
unfoldable pub field_of : Text → List Text → Option Text
field_of name [] = none
field_of name (line ∷ lines) = elim (strip_prefix name line) [
  | some value ↦ some (before 13 value)
  | none ↦ field_of name lines
]

unfoldable pub number_in : (Text → Text) → Option Text → Option ℕ
number_in part none = none
number_in part (some value) = parse_u64 (part value)

-- The length and the start of the range that a header declares, as a client reads them line by line.
unfoldable pub declared_length : Text → Option ℕ
unfolding field_of number_in
declared_length header = number_in (λ v. v) (field_of (codes "Content-Length: ") (split 10 header))

unfoldable pub declared_start : Text → Option ℕ
unfolding field_of number_in
declared_start header =
    number_in (before 45) (field_of (codes "Content-Range: bytes ") (split 10 header))

abbrev pub is_one_line : Text → Bool
is_one_line = all (λ c. not (c == 10) && not (c == 13))

one_line-append :
    (s t : Text) → is_one_line s ≡ true → is_one_line t ≡ true → is_one_line (s ++ t) ≡ true
one_line-append [] t h k = k
one_line-append (c ∷ s) t h k = ground (arith, one_line-append s t)

digits_one_line : (s : Text) → all is_ascii_digit s ≡ true → is_one_line s ≡ true
digits_one_line [] h = refl
digits_one_line (c ∷ s) h = ground (arith, digits_one_line s)

decimal_one_line : (n : ℕ) → is_one_line (to_decimal n) ≡ true
decimal_one_line n = digits_one_line (to_decimal n) (all-digits-to_decimal n)

one_line_no_newline :
    (s : Text) → is_one_line s ≡ true → all (λ c. not (c == 10)) (s ++ 13 ∷ []) ≡ true
one_line_no_newline [] h = refl
one_line_no_newline (c ∷ s) h = ground (arith, one_line_no_newline s)

one_line_no_return : (s : Text) → is_one_line s ≡ true → all (λ c. not (c == 13)) s ≡ true
one_line_no_return [] h = refl
one_line_no_return (c ∷ s) h = ground (arith, one_line_no_return s)

abbrev ended : List Text → List Text
ended = map (λ line. line ++ 13 ∷ [])

pub split-line :
    (line rest : Text)
    → is_one_line line ≡ true
    → split 10 (line ++ 13 ∷ 10 ∷ rest) ≡ (line ++ 13 ∷ []) ∷ split 10 rest
split-line line rest h =
    ap (split 10) (sym (append_assoc line (13 ∷ []) (10 ∷ rest)))
    ∙ split-append 10 (line ++ 13 ∷ []) rest
    ∙ ap (λ parts. parts ++ split 10 rest)
        (split_without 10 (line ++ 13 ∷ []) (one_line_no_newline line h))

-- Splitting gives back the lines.
split-lines_text :
    (lines : List Text)
    → All (λ line. is_one_line line ≡ true) lines
    → split 10 (lines_text lines) ≡ ended lines ++ (13 ∷ []) ∷ [] ∷ []
unfolding lines_text split
split-lines_text [] h = refl
split-lines_text (line ∷ lines) (h, hs) =
    split-line line (lines_text lines) h
    ∙ ap (λ parts. (line ++ 13 ∷ []) ∷ parts) (split-lines_text lines hs)

abbrev header_lines : Text → ℕ → Option ℕ → PayloadOrigin → Text → List Text
header_lines status content_length resume origin now =
    (codes "HTTP/1.1 " ++ status)
    ∷ codes "Server: flexo"
    ∷ (codes "Date: " ++ now)
    ∷ (codes "Flexo-Payload-Origin: " ++ origin_name origin)
    ∷ (content_range_header content_length resume
        ++ (codes "Content-Length: " ++ to_decimal content_length) ∷ [])

origin_one_line : (o : PayloadOrigin) → is_one_line (origin_name o) ≡ true
origin_one_line cache = refl
origin_one_line remote_mirror = refl
origin_one_line no_payload = refl

range_one_line :
    (r last complete : ℕ)
    → is_one_line (to_decimal r ++ 45 ∷ (to_decimal last ++ 47 ∷ to_decimal complete)) ≡ true
range_one_line r last complete =
    one_line-append (to_decimal r) _ (decimal_one_line r)
      (one_line-append (to_decimal last) _ (decimal_one_line last) (decimal_one_line complete))

header_lines_one_line :
    (status : Text) (content_length : ℕ) (resume : Option ℕ) (origin : PayloadOrigin) (now : Text)
    → is_one_line status ≡ true
    → is_one_line now ≡ true
    → All (λ line. is_one_line line ≡ true) (header_lines status content_length resume origin now)
unfolding content_range_header
header_lines_one_line status n none origin now h k =
    (h, (refl, (k, (origin_one_line origin, (decimal_one_line n, tt)))))
header_lines_one_line status n (some r) origin now h k =
    (h, (refl, (k, (origin_one_line origin, (range_one_line r _ _, (decimal_one_line n, tt))))))

value_back : (s : Text) → is_one_line s ≡ true → before 13 (s ++ 13 ∷ []) ≡ s
value_back s h = before_without 13 s [] (one_line_no_return s h)

length_back :
    (n : ℕ) → n < 2 ^ 64 → number_in (λ v. v) (some (before 13 (to_decimal n ++ 13 ∷ []))) ≡ some n
unfolding number_in
length_back n h = rw (value_back (to_decimal n) (decimal_one_line n)) (parse_u64-to_decimal n h)

length_in_lines :
    (status : Text) (n : ℕ) (resume : Option ℕ) (origin : PayloadOrigin) (now : Text)
    (rest : List Text)
    → n < 2 ^ 64
    → number_in
        (λ v. v)
        (field_of
          (codes "Content-Length: ")
          (ended (header_lines status n resume origin now) ++ rest))
      ≡ some n
unfolding field_of content_range_header strip_prefix ℕ_discrete
length_in_lines status n none origin now rest h = length_back n h
length_in_lines status n (some r) origin now rest h = length_back n h

digits_no_minus : (s : Text) → all is_ascii_digit s ≡ true → all (λ x. not (x == 45)) s ≡ true
digits_no_minus [] h = refl
digits_no_minus (c ∷ s) h = ground (arith, digits_no_minus s)

start_back :
    (r last complete : ℕ)
    → r < 2 ^ 64
    → number_in (before 45) (
        some (
          before 13
            ((to_decimal r ++ 45 ∷ (to_decimal last ++ 47 ∷ to_decimal complete)) ++ 13 ∷ [])))
      ≡ some r
unfolding number_in
start_back r last complete h =
    rw
      (
        value_back _ (range_one_line r last complete),
        before_without 45 (to_decimal r) (to_decimal last ++ 47 ∷ to_decimal complete)
            (digits_no_minus (to_decimal r) (all-digits-to_decimal r)),
      )
      (parse_u64-to_decimal r h)

abbrev pub IsStart : Option ℕ → Type 0
IsStart none = Unit
IsStart (some r) = r < 2 ^ 64

start_in_lines :
    (status : Text) (n : ℕ) (resume : Option ℕ) (origin : PayloadOrigin) (now : Text)
    → IsStart resume
    → number_in (before 45) (
        field_of
          (codes "Content-Range: bytes ")
          (ended (header_lines status n resume origin now) ++ (13 ∷ []) ∷ [] ∷ []))
      ≡ resume
unfolding field_of content_range_header strip_prefix ℕ_discrete number_in
start_in_lines status n none origin now h = refl
start_in_lines status n (some r) origin now h = start_back r _ _ h

-- A client that reads a header line by line finds the length that it was made for, and a range with
-- the start that it was made for, or no range. The status and the date are one line each.
pub reply_header-declared :
    (status : Text) (n : ℕ) (resume : Option ℕ) (origin : PayloadOrigin) (now : Text)
    → is_one_line status ≡ true
    → is_one_line now ≡ true
    → n < 2 ^ 64
    → IsStart resume
    → (declared_length (reply_header status n resume origin now) ≡ some n)
      × (declared_start (reply_header status n resume origin now) ≡ resume)
unfolding declared_length declared_start reply_header
reply_header-declared status n resume origin now h k small start =
    let e =
      split-lines_text (header_lines status n resume origin now)
        (header_lines_one_line status n resume origin now h k) in
    (
      ap (λ ls. number_in (λ v. v) (field_of (codes "Content-Length: ") ls)) e
          ∙ length_in_lines status n resume origin now _ small,
      ap (λ ls. number_in (before 45) (field_of (codes "Content-Range: bytes ") ls)) e
          ∙ start_in_lines status n resume origin now start,
    )
