-- ===== src/Tests/Answers.antt =====
-- The theorems on what is sent for a file, applied where their hypotheses hold.
use flexo.Base.{◌+◌, ◌/◌, ℕ, zero, suc, ◌≤◌, ◌≡◌, refl, false, [], ◌∷◌, some, arith}
use flexo.Job.{Result, ok}
use flexo.Growing.{
  IoError, send_payload, send_loop, serve_growing_file_loop, stream_loop, round, on_poll, on_send,
  back_off,
}
use flexo.Headers.{cache, remote_mirror}
use flexo.Serving.{
  client_file_source, after_stream, Connection, text, file_part, send_payload_and_flush,
  after_payload, write_all, file_header, set_nodelay, serve_from_complete_file,
  serve_from_growing_file,
}
use flexo.Serving.Framing.{IsAnswered}
use flexo.Serving.Complete.{serve_from_complete_file-IsAnswered}
use flexo.Serving.Growth.{serve_from_growing_file-IsAnswered}
use flexo.Tests.{good_network, unused, three_bytes-MovesBytes}

abbrev after_complete : Connection
after_complete = record {
  sent = text (file_header good_network 7 (some 3) cache) ∷ file_part 3 10 ∷ [];
  is_shut = false;
}

served_complete : serve_from_complete_file good_network 10 (some 3) unused ≡ (ok 10, after_complete)
unfolding serve_from_complete_file write_all send_payload_and_flush after_payload set_nodelay
    send_payload send_loop
served_complete = refl

serve_from_complete_file-IsAnswered_example : IsAnswered unused after_complete
serve_from_complete_file-IsAnswered_example =
    serve_from_complete_file-IsAnswered good_network 10 (some 3) 10 unused after_complete refl
      three_bytes-MovesBytes (omega arith) (omega arith) served_complete

-- A file that grows to four bytes and then to seven.
abbrev growing : ℕ → Result ℕ IoError
growing zero = ok 4
growing (suc n) = ok 7

growing_within : (n size : ℕ) → growing n ≡ ok size → size ≤ 7
growing_within zero size h = let same : 4 ≡ size = cc h in omega (arith, same)
growing_within (suc n) size h = let same : 7 ≡ size = cc h in omega (arith, same)

abbrev after_growing : Connection
after_growing = record {
  sent =
      text (file_header good_network 4 (some 3) remote_mirror) ∷ file_part 3 4 ∷ file_part 4 7 ∷ [];
  is_shut = false;
}

served_growing :
    serve_from_growing_file good_network growing 4 (some 3) unused ≡ (ok tt, after_growing)
unfolding serve_from_growing_file write_all serve_growing_file_loop stream_loop round on_poll
    on_send back_off client_file_source send_payload_and_flush after_payload set_nodelay
    send_payload send_loop after_stream
served_growing = refl

serve_from_growing_file-IsAnswered_example : IsAnswered unused after_growing
serve_from_growing_file-IsAnswered_example =
    serve_from_growing_file-IsAnswered good_network growing 4 (some 3) unused after_growing refl
      three_bytes-MovesBytes growing_within (omega arith) (omega arith) served_growing

-- a file that grows by a byte from 10000 polls to 10000 polls
abbrev slowly : ℕ → ℕ
slowly n = 3 + n / 10000
