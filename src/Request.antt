-- ===== src/Request.antt =====
-- flexo/src/mirror_flexo.rs: reading the request of a client. `parse` stands for `httparse`, `from_utf8`
-- says whether bytes are valid UTF-8, and `read` is what the n-th call of `read` puts into a buffer with
-- so many bytes left. Lower case is that of ASCII: no other letter has one of those of `bytes=` or a
-- digit as its lower case.
pub mod Range
pub mod Limits
use flexo.Base.{
  ℕ, zero, suc, ◌+◌, ◌-◌, ◌≡◌, Bool, true, false, ◌&&◌, List, [], ◌∷◌, ◌++◌, map, Option, none,
  some, ◌==◌, ltb, leb, length, if◌then◌else◌,
}
use flexo.Base.Text.{Text, codes, text_eq, strip_prefix, before}
use flexo.Base.Decimal.{parse_u64}
use flexo.Job.{Result, ok, err}
use flexo.Paths.{StrPath, new_str_path}
use flexo.Transfer.{to_ascii_lowercase, eq_ignore_ascii_case}
use flexo.Growing.{IoError}

abbrev pub max_header_size : ℕ
max_header_size = 8192

pub record ClientStatus : Type 0 where
  pub response_headers_sent : Bool

pub data FileAttrError : Type 0 where
  utf8_error : FileAttrError
  parse_error : FileAttrError
  io_error : IoError → FileAttrError
  timeout_error : FileAttrError

pub data ClientError : Type 0 where
  buffer_size_exceeded : ClientError
  timed_out : ClientError
  io_error : IoError → ClientError
  unsupported_http_method : ClientStatus → ClientError
  invalid_header : ClientStatus → ClientError
  other : IoError → ClientError
  file_attr_error : FileAttrError → ClientError

abbrev pub no_response_headers_sent : ClientStatus
no_response_headers_sent = record { response_headers_sent = false }

abbrev pub bad_header : ClientError
bad_header = invalid_header no_response_headers_sent

-- `s.replace(p, "")`, with so many characters to skip
unfoldable pub delete : Text → ℕ → Text → Text
delete p skip [] = []
delete p (suc skip) (c ∷ s) = delete p skip s
delete p zero (c ∷ s) = elim (strip_prefix p (c ∷ s)) [
  | some rest ↦ delete p (length p - 1) s
  | none ↦ c ∷ delete p zero s
]

unfoldable pub start_of : Option ℕ → Result ℕ ClientError
start_of none = err bad_header
start_of (some v) = ok v

-- What stands behind the minus sign is ignored.
unfoldable pub parse_range_header_value : Text → Result ℕ ClientError
unfolding start_of
parse_range_header_value s =
    start_of (parse_u64 (delete (codes "bytes=") 0 (before 45 (map to_ascii_lowercase s))))

-- What `httparse` finds in a complete request.
pub record ParsedRequest : Type 0 where
  pub method : Option Text
  pub path : Option Text
  pub headers : List (Text × Text)

pub data RequestMethod : Type 0 where
  get post : RequestMethod

pub record Request : Type 0 where
  pub resume_from : Option ℕ
  pub path : StrPath
  pub method : RequestMethod

unfoldable pub find_range : List (Text × Text) → Option Text
find_range [] = none
find_range ((name, value) ∷ headers) =
    let rest = find_range headers in
    if eq_ignore_ascii_case name (codes "range") then some value else rest

unfoldable pub resume_from : (Text → Bool) → Option Text → Result (Option ℕ) ClientError
resume_from from_utf8 none = ok none
resume_from from_utf8 (some value) =
    if from_utf8 value
    then elim (parse_range_header_value value) [ ok v ↦ ok (some v) | err e ↦ err e ]
    else err bad_header

unfoldable pub request_method : Option Text → Text → Result RequestMethod ClientError
request_method none path = err bad_header
request_method (some method) path =
    if text_eq method (codes "GET")
    then ok get
    else (if text_eq method (codes "POST") && text_eq path (codes "/reset-metrics")
        then ok post
        else err (unsupported_http_method no_response_headers_sent))

-- `Request::new`: first the range, then the path, then the method.
unfoldable pub with_path : Option Text → Option ℕ → Option Text → Result Request ClientError
with_path none resume method = err bad_header
with_path (some path) resume method = elim (request_method method path) [
  | err e ↦ err e
  | ok m ↦ ok (record { resume_from = resume; path = new_str_path path; method = m })
]

unfoldable pub new_request : (Text → Bool) → ParsedRequest → Result Request ClientError
new_request from_utf8 request = elim (resume_from from_utf8 (find_range request.headers)) [
  | err e ↦ err e
  | ok resume ↦ with_path request.path resume request.method
]

pub data ClientResponse : Type 0 where
  request : Request → ClientResponse
  socket_closed : ClientResponse

-- What `httparse` says of the bytes so far.
pub data Status : Type 0 where
  complete : ParsedRequest → Status
  partial : Status
  invalid : Status

pub data Reading : Type 0 where
  returned : Result ClientResponse ClientError → Reading
  out_of_fuel : Reading

module _ (parse : Text → Status) (from_utf8 : Text → Bool)
    (read : ℕ → ℕ → Result Text IoError) where
  unfoldable pub accept : Result Request ClientError → Result ClientResponse ClientError
  accept (ok r) = ok (request r)
  accept (err e) = err e

  -- The end of a round: a request, an error, or another round.
  unfoldable pub on_bytes : Status → Option (Result ClientResponse ClientError)
  unfolding accept
  on_bytes partial = none
  on_bytes invalid = some (err bad_header)
  on_bytes (complete parsed) = some (accept (new_request from_utf8 parsed))

  abbrev pub read_error : IoError → ClientError
  read_error IoError.timed_out = ClientError.timed_out
  read_error IoError.would_block = ClientError.timed_out
  read_error IoError.broken_pipe = other IoError.broken_pipe
  read_error IoError.connection_reset = other IoError.connection_reset
  read_error IoError.not_found = other IoError.not_found
  read_error IoError.other_error = other IoError.other_error

  -- What follows a read of some bytes, behind those of `buf`.
  unfoldable pub on_read : Text → Result Text IoError → Option (Result ClientResponse ClientError)
  unfolding on_bytes
  on_read buf (err e) = some (err (read_error e))
  on_read buf (ok bytes) =
      if length bytes == 0
      then some (ok socket_closed)
      else (if ltb max_header_size (length bytes)
          then some (err buffer_size_exceeded)
          else on_bytes (parse (buf ++ bytes)))

  abbrev pub bytes_of : Result Text IoError → Text
  bytes_of (ok bytes) = bytes
  bytes_of (err e) = []

  unfoldable pub read_loop : ℕ → ℕ → Text → Reading
  read_loop zero n buf = out_of_fuel
  read_loop (suc fuel) n buf = elim (leb max_header_size (length buf)) [
    | true ↦ returned (err buffer_size_exceeded)
    | false ↦ elim (on_read buf (read n (max_header_size + 1 - length buf))) [
      | some result ↦ returned result
      | none ↦ read_loop fuel (n + 1) (buf ++ bytes_of (read n (max_header_size + 1 - length buf)))
    ]
  ]

  -- Each round but the last reads a byte at least, so that one round more than bytes is enough.
  unfoldable pub read_client_header : Reading
  unfolding read_loop
  read_client_header = read_loop (max_header_size + 1) 0 []
