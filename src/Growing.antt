-- ===== src/Growing.antt =====
-- flexo/src/main.rs: streaming a file to the client while it is still being downloaded, and the
-- `sendfile64` loop below it. Each loop takes fuel; the child modules prove how much is enough.
pub mod Termination
pub mod Sendfile
use Prim.Native.Nat.{min}
use flexo.Base.{
  ℕ, zero, suc, ◌+◌, ◌-◌, ◌*◌, ◌≡◌, Bool, true, false, Option, none, some, ltb, leb, if◌then◌else◌,
}
use flexo.Job.{Result, ok, err}

abbrev pub max_sendfile_count : ℕ
max_sendfile_count = 0x7fff_f000

pub data IoError : Type 0 where
  timed_out would_block broken_pipe connection_reset not_found other_error : IoError

-- Number of bytes that still have to be sent to a client.
unfoldable pub remaining_content_length : ℕ → Option ℕ → ℕ
remaining_content_length complete_filesize none = complete_filesize - 0
remaining_content_length complete_filesize (some resume_from) = complete_filesize - resume_from

-- The trait `GrowingFileSource`, over the state `S` of a source.
pub record GrowingFileSource (S : Type 0) : Type 0 where
  pub current_filesize : S → Result ℕ IoError × S
  pub send : ℕ → ℕ → S → Result ℕ IoError × S

-- The variables of `serve_growing_file_loop`, with a count of the polls and of the sleeps.
pub record Stream (S : Type 0) : Type 0 where
  pub source : S
  pub client_received : ℕ
  pub polls_without_progress : ℕ
  pub polls : ℕ
  pub sleeps : ℕ

pub data Served (S : Type 0) : Type 0 where
  served : Stream S → Served S
  failed : IoError → Stream S → Served S
  out_of_fuel : Served S

-- A round: the loop goes on, or returns an error.
pub data Round (S : Type 0) : Type 0 where
  next : Stream S → Round S
  fail : IoError → Stream S → Round S

module _ {S : Type 0} (src : GrowingFileSource S)
    (complete_filesize max_polls_without_progress : ℕ) where
  -- Back off before the next poll, unless everything was sent.
  unfoldable pub back_off : Stream S → Stream S
  back_off s =
      if ltb s.client_received complete_filesize then record s { sleeps = s.sleeps + 1 } else s

  unfoldable pub on_send : Stream S → Result ℕ IoError × S → Round S
  unfolding back_off
  on_send s (ok received, source) = next (
      back_off
        (record s { source = source; client_received = received; polls_without_progress = 0 }))
  on_send s (err e, source) = fail e (record s { source = source })

  unfoldable pub on_stall : Stream S → Round S
  unfolding back_off
  on_stall s =
      if leb max_polls_without_progress s.polls_without_progress
      then fail timed_out s
      else next (back_off s)

  -- what follows the poll of the file's size
  unfoldable pub on_poll : Stream S → Result ℕ IoError × S → Round S
  unfolding on_send on_stall
  on_poll s (err e, source) = fail e (record s { source = source })
  on_poll s (ok filesize, source) =
      if ltb s.client_received filesize
      then on_send s (src.send filesize s.client_received source)
      else on_stall
          (record s { source = source; polls_without_progress = s.polls_without_progress + 1 })

  unfoldable pub round : Stream S → Round S
  unfolding on_poll
  round s = on_poll (record s { polls = s.polls + 1 }) (src.current_filesize s.source)

  unfoldable pub stream_loop : ℕ → Stream S → Served S
  stream_loop zero s = out_of_fuel
  stream_loop (suc fuel) s = elim (ltb s.client_received complete_filesize) [
    | false ↦ served s
    | true ↦ elim (round s) [ next t ↦ stream_loop fuel t | fail e t ↦ failed e t ]
  ]

-- Enough rounds for every byte to arrive by itself, each after as many idle polls as allowed.
abbrev pub stream_fuel : ℕ → ℕ → ℕ
stream_fuel content_length max_polls = content_length * suc max_polls + suc max_polls + 1

module _ {S : Type 0} where
  abbrev pub stream_from : S → ℕ → Stream S
  stream_from source resume_from = record {
    source = source;
    client_received = resume_from;
    polls_without_progress = 0;
    polls = 0;
    sleeps = 0;
  }

  unfoldable pub serve_growing_file_loop : GrowingFileSource S → S → ℕ → ℕ → ℕ → Served S
  serve_growing_file_loop src source resume_from content_length max_polls =
      stream_loop src (content_length + resume_from) max_polls
        (stream_fuel content_length max_polls) (stream_from source resume_from)

-- `send_payload`: the n-th call of `sendfile64`, at an offset and for a count of bytes, answers the
-- number of bytes that it moved the offset by, or an error.
pub data Payload : Type 0 where
  sent : ℕ → Payload
  os_error : ℕ → Payload
  out_of_fuel : Payload

abbrev pub sendfile_count : ℕ → ℕ → ℕ
sendfile_count filesize offset = min (filesize - offset) max_sendfile_count

unfoldable pub send_loop : (ℕ → ℕ → ℕ → Option ℕ) → ℕ → ℕ → ℕ → ℕ → Payload
send_loop sendfile filesize zero n offset = out_of_fuel
send_loop sendfile filesize (suc fuel) n offset = elim (ltb offset filesize) [
  | false ↦ sent offset
  | true ↦ elim (sendfile n offset (sendfile_count filesize offset)) [
    | none ↦ os_error offset
    | some size ↦ send_loop sendfile filesize fuel (n + 1) (offset + size)
  ]
]

unfoldable pub send_payload : (ℕ → ℕ → ℕ → Option ℕ) → ℕ → ℕ → Payload
send_payload sendfile filesize bytes_sent =
    send_loop sendfile filesize (filesize - bytes_sent + 1) 0 bytes_sent
