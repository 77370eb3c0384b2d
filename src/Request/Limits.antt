-- ===== src/Request/Limits.antt =====
-- How reading a request ends.
use flexo.Base.{
  ℕ, zero, suc, ◌+◌, ◌-◌, ◌≤◌, ◌<◌, ◌≡◌, refl, ap, subst, ◌∙◌, Bool, [], ◌++◌, Option, none, some,
  arith, leb, ltb, ◌==◌, length, length-append, Bool-cases, Option-cases, inl, inr,
}
use flexo.Base.Text.{Text}
use flexo.Job.{Result, ok, err}
use flexo.Growing.{IoError}
use flexo.Request.{
  max_header_size, ClientError, buffer_size_exceeded, Request, ClientResponse, request,
  socket_closed, Status, complete, partial, invalid, ParsedRequest, new_request, Reading, returned,
  accept, on_bytes, on_read, bytes_of, read_loop, read_client_header,
}

module _ (parse : Text → Status) (from_utf8 : Text → Bool)
    (read : ℕ → ℕ → Result Text IoError) where
  -- A read does not put more bytes into the buffer than it has left.
  abbrev pub Fits : Type 0
  Fits = (n capacity : ℕ) (bytes : Text) → read n capacity ≡ ok bytes → length bytes ≤ capacity

  -- All bytes of the first n reads, in order; each read has the room that the earlier ones left.
  pub all_read : ℕ → Text
  all_read zero = []
  all_read (suc n) =
      all_read n
      ++ bytes_of parse from_utf8 read (read n (max_header_size + 1 - length (all_read n)))

  -- How reading ends: an accepted request is what all bytes of the reads, within the limit, parse to.
  pub data Ends : Reading → Type 0 where
    accepted :
        (num_reads : ℕ) (parsed : ParsedRequest) (r : Request)
        → length (all_read num_reads) ≤ max_header_size + 1
        → parse (all_read num_reads) ≡ complete parsed
        → new_request from_utf8 parsed ≡ ok r
        → Ends (returned (ok (request r)))
    closed : Ends (returned (ok socket_closed))
    failed : (e : ClientError) → Ends (returned (err e))

  abbrev EndsOr : Option (Result ClientResponse ClientError) → Type 0
  EndsOr none = Unit
  EndsOr (some result) = Ends (returned result)

  accept-Ends :
      (num_reads : ℕ) (parsed : ParsedRequest) (r : Result Request ClientError)
      → length (all_read num_reads) ≤ max_header_size + 1
      → parse (all_read num_reads) ≡ complete parsed
      → new_request from_utf8 parsed ≡ r
      → Ends (returned (accept parse from_utf8 read r))
  unfolding accept
  accept-Ends k parsed (ok r) fits e h = accepted k parsed r fits e h
  accept-Ends k parsed (err error) fits e h = failed error

  on_bytes-EndsOr :
      (num_reads : ℕ) (st : Status)
      → length (all_read num_reads) ≤ max_header_size + 1
      → parse (all_read num_reads) ≡ st
      → EndsOr (on_bytes parse from_utf8 read st)
  unfolding on_bytes
  on_bytes-EndsOr k partial fits e = tt
  on_bytes-EndsOr k invalid fits e = failed _
  on_bytes-EndsOr k (complete parsed) fits e = accept-Ends k parsed _ fits e refl

  -- What a read yields, from a buffer that is not full.
  on_read-EndsOr :
      (num_reads : ℕ) (buf : Text) (bytes : Result Text IoError)
      → all_read num_reads ≡ buf ++ bytes_of parse from_utf8 read bytes
      → length (buf ++ bytes_of parse from_utf8 read bytes) ≤ max_header_size + 1
      → EndsOr (on_read parse from_utf8 read buf bytes)
  unfolding on_read
  on_read-EndsOr k buf (err e) same fits = failed _
  on_read-EndsOr k buf (ok bytes) same fits = elim (Bool-cases (length bytes == 0)) [
    | inl none_left ↦ rw none_left closed
    | inr some_left ↦ elim (Bool-cases (ltb max_header_size (length bytes))) [
      | inl many ↦ rw (some_left, many) (failed buffer_size_exceeded)
      | inr few ↦
          rw (some_left, few)
            (on_bytes-EndsOr k _ (omega (arith, ap length same, fits)) (ap parse same))
    ]
  ]

  -- A round that goes on has read a byte at least.
  on_read_goes_on :
      (buf : Text) (bytes : Result Text IoError)
      → on_read parse from_utf8 read buf bytes ≡ none
      → 0 < length (bytes_of parse from_utf8 read bytes)
  unfolding on_read
  on_read_goes_on buf (err e) h = cc
  on_read_goes_on buf (ok bytes) h = elim (Bool-cases (length bytes == 0)) [
    | inl none_left ↦ cc (rw none_left at h)
    | inr some_left ↦ ground arith
  ]

  read_fits :
      (n : ℕ) (buf : Text)
      → Fits
      → length buf ≤ max_header_size
      → length (buf ++ bytes_of parse from_utf8 read (read n (max_header_size + 1 - length buf)))
        ≤ max_header_size + 1
  read_fits n buf fits small = go (read n (max_header_size + 1 - length buf)) refl
    where
      go :
          (bytes : Result Text IoError)
          → read n (max_header_size + 1 - length buf) ≡ bytes
          → length (buf ++ bytes_of parse from_utf8 read bytes) ≤ max_header_size + 1
      go (ok bytes) e =
          let most = fits n (max_header_size + 1 - length buf) bytes e in
          omega (arith, length-append buf bytes, most)
      go (err e') e = omega (arith, length-append buf [])

  all_read-suc :
      (n : ℕ) (buf : Text)
      → all_read n ≡ buf
      → all_read (n + 1)
        ≡ buf ++ bytes_of parse from_utf8 read (read n (max_header_size + 1 - length buf))
  unfolding all_read
  all_read-suc n buf same =
      let one : n + 1 ≡ suc n = omega arith in
      ap all_read one
      ∙ ap (λ b. b ++ bytes_of parse from_utf8 read (read n (max_header_size + 1 - length b))) same

  read_loop-Ends :
      (fuel n : ℕ) (buf : Text)
      → Fits
      → all_read n ≡ buf
      → 0 < fuel
      → max_header_size < fuel + length buf
      → length buf ≤ max_header_size + 1
      → Ends (read_loop parse from_utf8 read fuel n buf)
  unfolding read_loop
  read_loop-Ends zero n buf fits same pos enough small = absurd (omega arith)
  read_loop-Ends (suc fuel) n buf fits same pos enough small =
      elim (Bool-cases (leb max_header_size (length buf))) [
        | inl full ↦ rw (full, read_loop) (failed buffer_size_exceeded)
        | inr room ↦
            let left : length buf < max_header_size = ground arith in
            let bytes = read n (max_header_size + 1 - length buf) in
            let next = all_read-suc n buf same in
            let within = read_fits n buf fits (omega arith) in
            elim (Option-cases (on_read parse from_utf8 read buf bytes)) [
              | inl goes_on ↦
                  let more = on_read_goes_on buf bytes goes_on in
                  rw (room, goes_on, read_loop)
                    (read_loop-Ends fuel (n + 1) (buf ++ bytes_of parse from_utf8 read bytes) fits
                      next (omega arith)
                      (omega (arith, more, length-append buf (bytes_of parse from_utf8 read bytes)))
                      within)
              | inr (result, e) ↦
                  rw (room, e, read_loop)
                    (subst EndsOr e (on_read-EndsOr (n + 1) buf bytes next within))
            ]
      ]

  -- Reading always ends, whatever the client sends and however it is cut up: with a request that all bytes
  -- of the reads so far, in their order, parse to, with the end of the connection, or with an error. A
  -- request is made of at most 8193 bytes. No read puts more bytes into the buffer than it has left.
  pub read_client_header-Ends : Fits → Ends (read_client_header parse from_utf8 read)
  unfolding read_client_header all_read
  read_client_header-Ends fits =
      read_loop-Ends (max_header_size + 1) 0 [] fits refl (omega arith) (omega arith) (omega arith)
