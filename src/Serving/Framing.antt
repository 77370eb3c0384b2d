-- ===== src/Serving/Framing.antt =====
-- When a client can tell where an answer ends.
use flexo.Base.{
  ℕ, ◌+◌, ◌-◌, ◌^◌, ◌<◌, ◌≡◌, refl, ap, Bool, true, List, [], ◌∷◌, ◌++◌, Option, none, some, arith,
  length,
}
use flexo.Base.Text.{Text, codes}
use flexo.Job.{ok, err}
use flexo.Headers.{PayloadOrigin, reply_header_success, reply_header_partial}
use flexo.Headers.Declared.{declared_length, is_one_line, IsStart, reply_header-declared}
use flexo.Growing.{IoError}
use flexo.Serving.{
  Sent, text, file_part, Connection, Network, Io, and_then, add_sent, outcome_of, write_all,
  set_nodelay, file_header,
}

abbrev pub payload_length : List Sent → ℕ
payload_length [] = 0
payload_length (text t ∷ xs) = length t + payload_length xs
payload_length (file_part from to ∷ xs) = (to - from) + payload_length xs

pub payload_length-append :
    (xs ys : List Sent) → payload_length (xs ++ ys) ≡ payload_length xs + payload_length ys
payload_length-append [] ys = omega arith
payload_length-append (text t ∷ xs) ys = omega (arith, payload_length-append xs ys)
payload_length-append (file_part from to ∷ xs) ys = omega (arith, payload_length-append xs ys)

-- An answer is a header, and behind it as many bytes as the header declares.
abbrev pub IsFramed : List Sent → Type 0
IsFramed [] = ⊥
IsFramed (text header ∷ xs) = declared_length header ≡ some (payload_length xs)
IsFramed (file_part from to ∷ xs) = ⊥

-- Between two states of a connection, one answer was sent.
pub record IsAnswered (c c' : Connection) : Type 0 where
  pub answer : List Sent
  pub added : c'.sent ≡ c.sent ++ answer
  pub framed : IsFramed answer

pub and_then-eq-ok :
    {A B : Type 0} (m : Io A) (f : A → Connection → Io B) (b : B) (c' : Connection)
    → and_then m f ≡ (ok b, c')
    → (a : A) × (c : Connection) × (m ≡ (ok a, c)) × (f a c ≡ (ok b, c'))
and_then-eq-ok (ok a, c) f b c' h = (a, c, refl, h)
and_then-eq-ok (err e, c) f b c' h = cc

outcome_of-eq-ok :
    {A : Type 0} (o : Option IoError) (a b : A) (done c c' : Connection)
    → outcome_of o a done c ≡ (ok b, c')
    → c' ≡ done
outcome_of-eq-ok none a b done c c' h = cc
outcome_of-eq-ok (some e) a b done c c' h = cc

module _ (net : Network) where
  pub write_all-eq-ok :
      (t : Text) (c c' : Connection) (u : Unit {0})
      → write_all net t c ≡ (ok u, c')
      → c' ≡ add_sent (text t) c
  unfolding write_all
  write_all-eq-ok t c c' u h = outcome_of-eq-ok (net.write_all c t) tt u _ c c' h

  pub set_nodelay-eq-ok :
      (on : Bool) (c c' : Connection) (u : Unit {0}) → set_nodelay net on c ≡ (ok u, c') → c' ≡ c
  unfolding set_nodelay
  set_nodelay-eq-ok on c c' u h = outcome_of-eq-ok (net.set_nodelay c on) tt u c c c' h

  -- a header for which nothing follows
  pub write_all-IsAnswered :
      (header : Text) (c c' : Connection) (u : Unit {0})
      → declared_length header ≡ some 0
      → write_all net header c ≡ (ok u, c')
      → IsAnswered c c'
  write_all-IsAnswered header c c' u zero_length h = record {
    answer = text header ∷ [];
    added = ap (λ (d : Connection). d.sent) (write_all-eq-ok header c c' u h);
    framed = zero_length;
  }

  pub file_header-declared :
      (n : ℕ) (resume : Option ℕ) (origin : PayloadOrigin)
      → is_one_line net.now ≡ true
      → n < 2 ^ 64
      → IsStart resume
      → declared_length (file_header net n resume origin) ≡ some n
  unfolding file_header reply_header_success reply_header_partial
  file_header-declared n none origin one small start =
      (reply_header-declared (codes "200 OK") n none origin net.now refl one small start).0
  file_header-declared n (some r) origin one small start =
      (reply_header-declared (codes "206 Partial Content") n (some r) origin net.now refl one small
        start).0
