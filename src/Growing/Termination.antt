-- ===== src/Growing/Termination.antt =====
-- flexo/src/main.rs: how `serve_growing_file_loop` ends, and when it sleeps.
use flexo.Base.{
  ℕ, zero, suc, ◌+◌, ◌-◌, ◌*◌, ◌≤◌, ◌<◌, ◌≡◌, refl, true, arith, ltb, leb, Bool-cases, inl, inr,
}
use flexo.Job.{Result, ok, err}
use flexo.Growing.{
  GrowingFileSource, IoError, Stream, Served, served, failed, out_of_fuel, Round, next, fail,
  back_off, on_send, on_stall, on_poll, round, stream_loop, stream_from, stream_fuel,
  serve_growing_file_loop,
}

module _ {S : Type 0} (src : GrowingFileSource S) where
  -- A `send` that does not fail has sent something, as `send_payload` does.
  abbrev pub SendsSomething : Type 0
  SendsSomething =
      (filesize received : ℕ) (s t : S) (n : ℕ)
      → src.send filesize received s ≡ (ok n, t)
      → received < filesize
      → received < n

  module _ (complete max_polls : ℕ) where
    -- the potential that each round lowers
    abbrev potential : Stream S → ℕ
    potential s =
        (complete - s.client_received) * suc max_polls + (suc max_polls - s.polls_without_progress)

    progress_drop :
        (r r' m p : ℕ)
        → r < complete
        → r < r'
        → p < m
        → (complete - r') * m + m < (complete - r) * m + (m - p)
    progress_drop r r' m p h lt k = grind arith

    -- Each poll but the last was followed by a sleep.
    abbrev Paced : Stream S → Type 0
    Paced s =
        (ltb s.client_received complete ≡ true → s.polls ≡ s.sleeps) × (s.polls ≤ s.sleeps + 1)

    record Good (s : Stream S) : Type 0 where
      paced : Paced s
      patient : s.polls_without_progress < suc max_polls

    -- A round lowers the potential, or stops before it sleeps.
    abbrev RoundOk : Stream S → Round S → Type 0
    RoundOk s (next t) = Good t × (potential t < potential s)
    RoundOk s (fail e t) = (t.polls ≡ t.sleeps + 1) × (t.client_received ≡ s.client_received)

    back_off-Good :
        (s : Stream S)
        → s.polls ≡ s.sleeps + 1
        → s.polls_without_progress < suc max_polls
        → Good (back_off src complete max_polls s)
    unfolding back_off
    back_off-Good s h k = ground arith

    back_off-potential :
        (s : Stream S) → potential (back_off src complete max_polls s) ≡ potential s
    unfolding back_off
    back_off-potential s = ground arith

    on_stall-RoundOk :
        (s t : Stream S)
        → t.polls ≡ t.sleeps + 1
        → t.client_received ≡ s.client_received
        → s.polls_without_progress < suc max_polls
        → t.polls_without_progress ≡ s.polls_without_progress + 1
        → RoundOk s (on_stall src complete max_polls t)
    unfolding on_stall
    on_stall-RoundOk s t h r k p = elim (Bool-cases (leb max_polls t.polls_without_progress)) [
      | inl stop ↦ rw (stop, on_stall) (h, r)
      | inr go ↦
          rw (go, on_stall) (back_off-Good t h (ground arith), ground (arith, back_off-potential t))
    ]

    on_send-RoundOk :
        (s t : Stream S) (answer : Result ℕ IoError × S)
        → t.polls ≡ t.sleeps + 1
        → t.client_received ≡ s.client_received
        → s.client_received < complete
        → s.polls_without_progress < suc max_polls
        → ((n : ℕ) → answer.0 ≡ ok n → s.client_received < n)
        → RoundOk s (on_send src complete max_polls t answer)
    unfolding on_send
    on_send-RoundOk s t (err e, u) h r lt k grows = (h, r)
    on_send-RoundOk s t (ok n, u) h r lt k grows =
        let t' : Stream S = record t {
          source = u;
          client_received = n;
          polls_without_progress = 0;
        } in
        (
          back_off-Good t' h (omega arith),
          omega (
            arith,
            back_off-potential t',
            progress_drop s.client_received n (suc max_polls) s.polls_without_progress lt
                (grows n refl) k,
          ),
        )

    on_poll-RoundOk :
        (s t : Stream S) (answer : Result ℕ IoError × S)
        → SendsSomething
        → t.polls ≡ t.sleeps + 1
        → t.client_received ≡ s.client_received
        → t.polls_without_progress ≡ s.polls_without_progress
        → s.client_received < complete
        → s.polls_without_progress < suc max_polls
        → RoundOk s (on_poll src complete max_polls t answer)
    unfolding on_poll
    on_poll-RoundOk s t (err e, u) sends h r p lt k = (h, r)
    on_poll-RoundOk s t (ok filesize, u) sends h r p lt k =
        elim (Bool-cases (ltb t.client_received filesize)) [
          | inl some' ↦
              rw (some', on_poll)
                (on_send-RoundOk s t (src.send filesize t.client_received u) h r lt k
                  (λ n e. grows filesize n (ground arith) e))
          | inr none' ↦
              rw (none', on_poll)
                (on_stall-RoundOk s
                  (record t { source = u; polls_without_progress = t.polls_without_progress + 1 }) h
                  r k (omega arith))
        ]
      where
        grows :
            (filesize n : ℕ)
            → t.client_received < filesize
            → (src.send filesize t.client_received u).0 ≡ ok n
            → s.client_received < n
        grows filesize n some' e = omega (
          arith,
          sends filesize t.client_received u (src.send filesize t.client_received u).1 n
              (λ i. (e i, (src.send filesize t.client_received u).1)) some',
        )

    round-RoundOk :
        (s : Stream S)
        → SendsSomething
        → s.client_received < complete
        → Good s
        → RoundOk s (round src complete max_polls s)
    unfolding round
    round-RoundOk s sends lt g =
        on_poll-RoundOk s (record s { polls = s.polls + 1 }) (src.current_filesize s.source) sends
          (omega (arith, g.paced.0 (ground arith))) refl refl lt g.patient

    -- How the loop ends: all was sent, or an error stopped it before.
    abbrev pub StreamEnds : Served S → Type 0
    StreamEnds (served t) = (complete ≤ t.client_received) × (t.polls ≤ t.sleeps + 1)
    StreamEnds (failed e t) = (t.client_received < complete) × (t.polls ≡ t.sleeps + 1)
    StreamEnds out_of_fuel = ⊥

    stream_loop-StreamEnds :
        (fuel : ℕ) (s : Stream S)
        → SendsSomething
        → Good s
        → potential s < fuel
        → StreamEnds (stream_loop src complete max_polls fuel s)
    unfolding stream_loop
    stream_loop-StreamEnds zero s sends g h = absurd (omega arith)
    stream_loop-StreamEnds (suc fuel) s sends g h =
        elim (Bool-cases (ltb s.client_received complete)) [
          | inr done ↦ rw (done, stream_loop) (ground arith)
          | inl more ↦
              rw (more, stream_loop)
                (go (round src complete max_polls s) (round-RoundOk s sends (ground arith) g)
                  (λ t k. stream_loop-StreamEnds fuel t sends k.0 (omega (arith, k.1)))
                  (ground arith))
        ]
      where
        go :
            (r : Round S)
            → RoundOk s r
            → ((t : Stream S)
                → Good t × (potential t < potential s)
                → StreamEnds (stream_loop src complete max_polls fuel t))
            → s.client_received < complete
            → StreamEnds (elim r [
              | next t ↦ stream_loop src complete max_polls fuel t
              | fail e t ↦ failed e t
            ])
        go (next t) k ih lt = ih t k
        go (fail e t) k ih lt = (omega (arith, k.1), k.0)

  -- If each send that succeeds sends something, the loop ends within its fuel. Either the client has
  -- received everything, or an error is returned before that; a stalled download is such an error.
  -- Every poll but the last was followed by a sleep.
  pub serve_growing_file_loop-StreamEnds :
      (source : S) (resume_from content_length max_polls : ℕ)
      → SendsSomething
      → StreamEnds
          (content_length + resume_from)
          max_polls
          (serve_growing_file_loop src source resume_from content_length max_polls)
  unfolding serve_growing_file_loop
  serve_growing_file_loop-StreamEnds source resume_from content_length max_polls sends =
      stream_loop-StreamEnds (content_length + resume_from) max_polls
        (stream_fuel content_length max_polls) (stream_from source resume_from) sends
        (record { paced = (λ _. refl, omega arith); patient = omega arith }) (grind arith)
