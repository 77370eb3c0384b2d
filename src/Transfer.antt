-- ===== src/Transfer.antt =====
-- flexo/src/mirror_flexo.rs: `DownloadState`, the handler that receives the headers and the body of a
-- download from a remote mirror. The file is the bytes written to it so far. `write_all` answers the
-- file afterwards, `metadata_len` the length that the file system reports of it, and `parse` stands for
-- `httparse`. The size that is written to the `.cfs` file is kept in `cfs`.
pub mod Messages
pub mod Body
use flexo.Base.{
  ℕ, zero, suc, ◌+◌, ◌-◌, ◌*◌, ◌%◌, ◌^◌, Bool, true, false, ◌||◌, ◌&&◌, List, [], ◌∷◌, ◌++◌, map,
  Option, none, some, ltb, leb, ◌==◌, length, if◌then◌else◌,
}
use flexo.Base.Text.{Text, codes, text_eq}
use flexo.Base.Decimal.{parse_u64}
use flexo.Job.{FlexoProgress, job_size, progress, completed, Result, ok, err}

pub data HeaderOutcome : Type 0 where
  received : ℕ → HeaderOutcome
  unavailable : HeaderOutcome

-- What `httparse` says of the bytes so far: a code and headers, more to come, or an error.
pub data Status : Type 0 where
  complete : ℕ → List (Text × Text) → Status
  partial : Status
  invalid : Status

pub record DownloadState : Type 0 where
  pub file : Text
  pub size_written : ℕ
  pub received_header : Text
  pub header_success : Option HeaderOutcome
  pub last_chance : Bool
  pub is_cacheable : Bool
  pub cfs : Option ℕ
  pub tx : List FlexoProgress

abbrev pub u64 : ℕ → ℕ
u64 n = n % 2 ^ 64

abbrev pub to_ascii_lowercase : ℕ → ℕ
to_ascii_lowercase c = if leb 65 c && leb c 90 then c + 32 else c

unfoldable pub eq_ignore_ascii_case : Text → Text → Bool
eq_ignore_ascii_case s t = text_eq (map to_ascii_lowercase s) (map to_ascii_lowercase t)

-- the first Content-Length header with a valid value
unfoldable pub find_content_length : List (Text × Text) → Option ℕ
find_content_length [] = none
find_content_length ((name, value) ∷ headers) =
    let rest = find_content_length headers in
    if eq_ignore_ascii_case name (codes "content-length")
    then elim (parse_u64 value) [ none ↦ rest | some n ↦ some n ]
    else rest

unfoldable pub send : FlexoProgress → DownloadState → DownloadState
send message s = record s { tx = s.tx ++ message ∷ [] }

-- The answer is 200 or 206, with this content length.
unfoldable pub on_content_length : ℕ → DownloadState → DownloadState
unfolding send
on_content_length content_length s =
    let client_content_length = u64 (s.size_written + content_length) in
    send (job_size client_content_length) (record s {
      header_success = some (received content_length);
      cfs = if s.is_cacheable then some client_content_length else s.cfs;
    })

unfoldable pub on_response : ℕ → List (Text × Text) → DownloadState → Bool × DownloadState
unfolding on_content_length send
on_response code headers s =
    if code == 200 || code == 206
    then elim (find_content_length headers) [
      | none ↦ (false, s)
      | some content_length ↦ (true, on_content_length content_length s)
    ]
    else (if code == 416
        then (true, send completed (record s { header_success = some unavailable }))
        else (if leb 300 code && ltb code 400
            then (true, record s { received_header = [] })
            else (if s.last_chance
                then (
                  true,
                  send FlexoProgress.unavailable (record s { header_success = some unavailable }),
                )
                else (true, record s { header_success = some unavailable }))))

-- What `write` returns; `unreachable` is its panic.
pub data Written : Type 0 where
  count : ℕ → Written
  pause : Written
  unreachable : Written

module _ (parse : Text → Status) (write_all : Text → Text → Result Text Text)
    (metadata_len : Text → ℕ) where
  unfoldable pub on_status : Status → DownloadState → Bool × DownloadState
  unfolding on_response
  on_status (complete code headers) s = on_response code headers s
  on_status partial s = (true, s)
  on_status invalid s = (false, s)

  -- `header`, with the Boolean that it returns
  unfoldable pub header : Text → DownloadState → Bool × DownloadState
  unfolding on_status
  header data' s =
      on_status (parse (s.received_header ++ data'))
        (record s { received_header = s.received_header ++ data' })

  -- what follows `write_all`, of so many bytes
  unfoldable pub on_written : ℕ → Result Text Text → DownloadState → Written × DownloadState
  unfolding send
  on_written n (ok file) s =
      (count n, send (progress (metadata_len file)) (record s { file = file }))
  on_written n (err file) s = (pause, record s { file = file })

  unfoldable pub write_after : Option HeaderOutcome → Text → DownloadState → Written × DownloadState
  unfolding on_written
  write_after none data' s = (unreachable, s)
  write_after (some unavailable) data' s = (count (length data'), s)
  write_after (some (received content_length)) data' s =
      on_written (length data') (write_all s.file data')
        (record s { size_written = u64 (s.size_written + length data') })

  unfoldable pub write : Text → DownloadState → Written × DownloadState
  unfolding write_after
  write data' s = write_after s.header_success data' s

  -- The calls of the handler during a transfer, and the state after each of them.
  pub data Call : Type 0 where
    on_header : Text → Call
    on_write : Text → Call

  unfoldable pub call : Call → DownloadState → DownloadState
  unfolding header write
  call (on_header data') s = (header data' s).1
  call (on_write data') s = (write data' s).1

  unfoldable pub transfer : List Call → DownloadState → DownloadState
  transfer [] s = s
  transfer (c ∷ cs) s = transfer cs (call c s)
