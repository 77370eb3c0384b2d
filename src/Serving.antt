-- ===== src/Serving.antt =====
-- flexo/src/main.rs: what is sent to a client, header by header and file by file. A connection keeps what
-- was sent; whether a write fails may depend on that. Of a write that fails nothing is kept.
pub mod Framing
pub mod Complete
pub mod Growth
pub mod Reliable
pub mod Progress
use flexo.Base.{
  ℕ, zero, suc, ◌+◌, ◌-◌, ◌%◌, ◌^◌, Bool, true, false, List, [], ◌∷◌, ◌++◌, Option, none, some,
  length,
}
use flexo.Base.Text.{Text, codes}
use flexo.Job.{Result, ok, err}
use flexo.Transfer.{u64}
use flexo.Headers.{
  PayloadOrigin, cache, remote_mirror, no_payload, reply_header_success, reply_header_partial,
  reply_header_not_found, reply_header_bad_request, reply_header_internal_server_error,
  reply_header_forbidden, redirect_header,
}
use flexo.Growing.{
  IoError, GrowingFileSource, Stream, Served, served, failed, out_of_fuel, serve_growing_file_loop,
  Payload, sent, os_error, send_payload,
}

-- A text, or the bytes of a file from one offset to another.
pub data Sent : Type 0 where
  text : Text → Sent
  file_part : ℕ → ℕ → Sent

pub record Connection : Type 0 where
  pub sent : List Sent
  pub is_shut : Bool

-- The calls on the socket, each of which may fail, and the date.
pub record Network : Type 0 where
  pub write_all : Connection → Text → Option IoError
  pub set_nodelay : Connection → Bool → Option IoError
  pub sendfile : ℕ → ℕ → ℕ → Option ℕ
  pub last_os_error : IoError
  pub now : Text

abbrev pub Io : Type 0 → Type 0
Io A = Result A IoError × Connection

-- `?`: the rest of the function, unless there was an error.
abbrev pub and_then : {A B : Type 0} → Io A → (A → Connection → Io B) → Io B
and_then (ok a, c) f = f a c
and_then (err e, c) f = (err e, c)

abbrev pub add_sent : Sent → Connection → Connection
add_sent s c = record c { sent = c.sent ++ s ∷ [] }

abbrev pub outcome_of : {A : Type 0} → Option IoError → A → Connection → Connection → Io A
outcome_of none a done c = (ok a, done)
outcome_of (some e) a done c = (err e, c)

abbrev pub start_or_zero : Option ℕ → ℕ
start_or_zero none = 0
start_or_zero (some r) = r

-- `ClientFileSource`: the connection, and the number of polls; the n-th poll finds the file with the
-- n-th size.
pub record ClientFileSource : Type 0 where
  pub client_stream : Connection
  pub polls : ℕ

abbrev pub sent_on : Io ℕ → ℕ → Result ℕ IoError × ClientFileSource
sent_on (result, c) polls = (result, record { client_stream = c; polls = polls })

-- The stall timeout of ten seconds, in intervals of 500 microseconds.
abbrev pub max_polls_without_progress : ℕ
max_polls_without_progress = 20000

unfoldable pub after_stream : Served ClientFileSource → Connection → Io Unit
after_stream (served s) c = (ok tt, s.source.client_stream)
after_stream (failed e s) c = (err e, s.source.client_stream)
after_stream Served.out_of_fuel c = (err IoError.timed_out, c)

module _ (net : Network) where
  unfoldable pub write_all : Text → Connection → Io Unit
  write_all t c = outcome_of (net.write_all c t) tt (add_sent (text t) c) c

  unfoldable pub serve_404_header : Connection → Io Unit
  unfolding write_all
  serve_404_header c = write_all (reply_header_not_found net.now) c

  unfoldable pub serve_400_header : Connection → Io Unit
  unfolding write_all
  serve_400_header c = write_all (reply_header_bad_request net.now) c

  unfoldable pub serve_500_header : Connection → Io Unit
  unfolding write_all
  serve_500_header c = write_all (reply_header_internal_server_error net.now) c

  unfoldable pub serve_403_header : Connection → Io Unit
  unfolding write_all
  serve_403_header c = write_all (reply_header_forbidden net.now) c

  unfoldable pub serve_200_ok_empty : Connection → Io Unit
  unfolding write_all
  serve_200_ok_empty c = write_all (reply_header_success 0 no_payload net.now) c

  unfoldable pub serve_200_ok_body : Text → Connection → Io Unit
  unfolding write_all
  serve_200_ok_body body c =
      and_then (write_all (reply_header_success (length body) no_payload net.now) c)
        λ _ c'. write_all body c'

  unfoldable pub serve_via_redirect : Text → Connection → Io Unit
  unfolding write_all
  serve_via_redirect uri c = write_all (redirect_header uri net.now) c

  -- What `send_payload` has sent, whether or not it fails in the end.
  unfoldable pub after_payload : ℕ → Payload → Connection → Io ℕ
  after_payload bytes_sent (sent offset) c = (ok offset, add_sent (file_part bytes_sent offset) c)
  after_payload bytes_sent (os_error offset) c =
      (err net.last_os_error, add_sent (file_part bytes_sent offset) c)
  after_payload bytes_sent Payload.out_of_fuel c = (err net.last_os_error, c)

  unfoldable pub set_nodelay : Bool → Connection → Io Unit
  set_nodelay on c = outcome_of (net.set_nodelay c on) tt c c

  unfoldable pub send_payload_and_flush : ℕ → ℕ → Connection → Io ℕ
  unfolding after_payload set_nodelay
  send_payload_and_flush filesize bytes_sent c =
      let (result, c') =
        after_payload bytes_sent (send_payload net.sendfile filesize bytes_sent) c in
      and_then (set_nodelay true c')
        λ _ c''. and_then (set_nodelay false c'') λ _ c'''. (result, c''')

  -- The header of an answer with a file, as a whole or from some start on.
  unfoldable pub file_header : ℕ → Option ℕ → PayloadOrigin → Text
  file_header content_length none origin = reply_header_success content_length origin net.now
  file_header content_length (some r) origin = reply_header_partial content_length r origin net.now

  -- `serve_from_complete_file`, for a file of some size.
  unfoldable pub serve_from_complete_file : ℕ → Option ℕ → Connection → Io ℕ
  unfolding write_all file_header
  serve_from_complete_file filesize resume_from c =
      let start = start_or_zero resume_from in
      let content_length = u64 (filesize + 2 ^ 64 - start) in
      and_then (write_all (file_header content_length resume_from cache) c)
        λ _ c'. send_payload_and_flush filesize start c'

  unfoldable pub client_file_source : (ℕ → Result ℕ IoError) → GrowingFileSource ClientFileSource
  unfolding send_payload_and_flush
  client_file_source sizes = record {
    current_filesize = λ s. (sizes s.polls, record s { polls = s.polls + 1 });
    send = λ filesize client_received s.
        sent_on (send_payload_and_flush filesize client_received s.client_stream) s.polls;
  }

  unfoldable pub serve_from_growing_file :
      (ℕ → Result ℕ IoError) → ℕ → Option ℕ → Connection → Io Unit
  unfolding write_all file_header after_stream
  serve_from_growing_file sizes content_length resume_from c =
      and_then (write_all (file_header content_length resume_from remote_mirror) c) λ _ c'.
        after_stream
          (serve_growing_file_loop (client_file_source sizes)
            (record { client_stream = c'; polls = 0 }) (start_or_zero resume_from) content_length
            max_polls_without_progress)
          c'
