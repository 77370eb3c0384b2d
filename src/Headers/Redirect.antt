-- ===== src/Headers/Redirect.antt =====
-- The header of a redirect.
use flexo.Base.{ℕ_discrete, ◌≡◌, refl, ap, ◌∙◌, true, [], ◌∷◌, ◌++◌, some}
use flexo.Base.Text.{Text, codes, strip_prefix, before}
use flexo.Base.Decimal.{parse_u64}
use flexo.Headers.{lines_text, redirect_header}
use flexo.Headers.Declared.{field_of, number_in, declared_length, is_one_line, split-line}

-- A redirect declares that nothing follows its header, whatever address it names.
pub redirect_header-declared :
    (uri now : Text) → is_one_line now ≡ true → declared_length (redirect_header uri now) ≡ some 0
unfolding declared_length redirect_header lines_text field_of number_in strip_prefix ℕ_discrete
    parse_u64 before
redirect_header-declared uri now h =
    let rest : Text = lines_text ((codes "Location: " ++ uri) ∷ []) in
    let length_line = codes "Content-Length: 0" in
    let from_date = (codes "Date: " ++ now) ++ 13 ∷ 10 ∷ (length_line ++ 13 ∷ 10 ∷ rest) in
    let lines =
      split-line (codes "HTTP/1.1 301 Moved Permanently")
        (codes "Server: flexo" ++ 13 ∷ 10 ∷ from_date) refl
      ∙ ap (λ ls. (codes "HTTP/1.1 301 Moved Permanently" ++ 13 ∷ []) ∷ ls)
          (split-line (codes "Server: flexo") from_date refl
            ∙ ap (λ ls. (codes "Server: flexo" ++ 13 ∷ []) ∷ ls)
                (split-line (codes "Date: " ++ now) (length_line ++ 13 ∷ 10 ∷ rest) h
                  ∙ ap (λ ls. ((codes "Date: " ++ now) ++ 13 ∷ []) ∷ ls)
                      (split-line length_line rest refl))) in
    ap (λ ls. number_in (λ v. v) (field_of (codes "Content-Length: ") ls)) lines
