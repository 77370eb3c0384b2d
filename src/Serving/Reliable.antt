-- ===== src/Serving/Reliable.antt =====
-- flexo/src/main.rs: what `send_payload_and_flush` does on a network on which nothing fails.
use flexo.Base.{
  ℕ, zero, suc, ◌+◌, ◌-◌, ◌≤◌, ◌≡◌, ◌≢◌, refl, Bool, true, false, none, ltb, Bool-cases,
  Option-cases, inl, inr,
}
use flexo.Job.{ok}
use flexo.Growing.{sent, os_error, sendfile_count, send_payload, send_loop}
use flexo.Growing.Sendfile.{MovesBytes, send_payload-Ends}
use flexo.Base.Text.{Text}
use flexo.Serving.{
  Connection, Network, after_payload, set_nodelay, send_payload_and_flush, add_sent, file_part,
}

-- A network on which nothing fails.
pub record IsReliable (net : Network) : Type 0 where
  pub moves : MovesBytes net.sendfile
  pub sends : (n offset count : ℕ) → net.sendfile n offset count ≢ none
  pub writes : (c : Connection) (t : Text) → net.write_all c t ≡ none
  pub flushes : (c : Connection) (on : Bool) → net.set_nodelay c on ≡ none

module _ (net : Network) where
  send_loop-≢-os_error :
      (filesize fuel n offset at : ℕ)
      → IsReliable net
      → send_loop net.sendfile filesize fuel n offset ≢ os_error at
  unfolding send_loop
  send_loop-≢-os_error filesize zero n offset at reliable e = cc
  send_loop-≢-os_error filesize (suc fuel) n offset at reliable e =
      elim (Bool-cases (ltb offset filesize)) [
        | inr done ↦ cc (rw (done, send_loop) at e)
        | inl more ↦ elim (Option-cases (net.sendfile n offset (sendfile_count filesize offset))) [
          | inl none_sent ↦ reliable.sends n offset (sendfile_count filesize offset) none_sent
          | inr (size, moved) ↦
              send_loop-≢-os_error filesize fuel (n + 1) (offset + size) at reliable
                (rw (more, moved, send_loop) at e)
        ]
      ]

  sent_all :
      (filesize bytes_sent : ℕ)
      → IsReliable net
      → bytes_sent ≤ filesize
      → send_payload net.sendfile filesize bytes_sent ≡ sent filesize
  unfolding send_payload
  sent_all filesize b reliable le =
      elim (send_payload-Ends net.sendfile filesize b reliable.moves le) [
        | inl complete ↦ complete
        | inr (at, stopped, lo, hi) ↦
            absurd (send_loop-≢-os_error filesize (filesize - b + 1) 0 b at reliable stopped)
      ]

  pub flushed :
      (filesize bytes_sent : ℕ) (c : Connection)
      → IsReliable net
      → bytes_sent ≤ filesize
      → send_payload_and_flush net filesize bytes_sent c
        ≡ (ok filesize, add_sent (file_part bytes_sent filesize) c)
  unfolding send_payload_and_flush after_payload set_nodelay
  flushed filesize b c reliable le =
      rw
        (
          sent_all filesize b reliable le,
          reliable.flushes (add_sent (file_part b filesize) c) true,
          reliable.flushes (add_sent (file_part b filesize) c) false,
        )
        refl
