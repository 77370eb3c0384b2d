-- ===== src/Serving/Growth.antt =====
-- Serving a file that is still growing.
use mathlib.Core.List.{append_assoc, append-nil}
use flexo.Base.{
  ℕ, zero, suc, ◌+◌, ◌^◌, ◌≤◌, ◌<◌, ◌≡◌, refl, ap, sym, ◌∙◌, true, List, [], ◌∷◌, ◌++◌, Option,
  some, arith, ltb, leb, Bool-cases, inl, inr,
}
use flexo.Job.{Result, ok, err}
use flexo.Headers.{remote_mirror}
use flexo.Headers.Declared.{is_one_line, IsStart}
use flexo.Growing.{
  IoError, GrowingFileSource, Stream, Served, served, failed, Round, next, fail, back_off, on_send,
  on_stall, on_poll, round, stream_loop, stream_fuel, stream_from, serve_growing_file_loop,
}
use flexo.Growing.Sendfile.{MovesBytes}
use flexo.Serving.{
  Sent, text, file_part, Connection, Network, Io, write_all, send_payload_and_flush, start_or_zero,
  file_header, ClientFileSource, sent_on, client_file_source, max_polls_without_progress,
  after_stream, serve_from_growing_file,
}
use flexo.Serving.Framing.{
  payload_length, payload_length-append, IsAnswered, and_then-eq-ok, write_all-eq-ok,
  file_header-declared,
}
use flexo.Serving.Complete.{send_payload_and_flush-eq-ok}

module _ (net : Network) (sizes : ℕ → Result ℕ IoError) (complete : ℕ) where
  abbrev src : GrowingFileSource ClientFileSource
  src = client_file_source net sizes

  -- The file is never longer than it is when complete.
  abbrev pub NeverLonger : Type 0
  NeverLonger = (n size : ℕ) → sizes n ≡ ok size → size ≤ complete

  module _ (max_polls start : ℕ) (before : List Sent) where
    -- What the client has received is what was sent behind the header.
    record IsStreamed (s : Stream ClientFileSource) : Type 0 where
      parts : List Sent
      added : s.source.client_stream.sent ≡ before ++ parts
      so_far : payload_length parts + start ≡ s.client_received
      within : s.client_received ≤ complete

    abbrev RoundStreamed : Round ClientFileSource → Type 0
    RoundStreamed (next t) = IsStreamed t
    RoundStreamed (fail e t) = Unit

    back_off-IsStreamed :
        (s : Stream ClientFileSource)
        → IsStreamed s
        → IsStreamed (back_off src complete max_polls s)
    unfolding back_off
    back_off-IsStreamed s h = elim (Bool-cases (ltb s.client_received complete)) [
      | inl more ↦
          rw more
            (record { parts = h.parts; added = h.added; so_far = h.so_far; within = h.within })
      | inr all ↦ rw all h
    ]

    on_send-RoundStreamed :
        (filesize : ℕ) (s : Stream ClientFileSource)
        → MovesBytes net.sendfile
        → s.client_received < filesize
        → filesize ≤ complete
        → IsStreamed s
        → RoundStreamed
            (on_send src complete max_polls s (src.send filesize s.client_received s.source))
    unfolding on_send client_file_source
    on_send-RoundStreamed filesize s moves lt le h =
        go (send_payload_and_flush net filesize s.client_received s.source.client_stream) refl
      where
        go :
            (m : Io ℕ)
            → send_payload_and_flush net filesize s.client_received s.source.client_stream ≡ m
            → RoundStreamed (on_send src complete max_polls s (sent_on m s.source.polls))
        go (err e, c) same = tt
        go (ok n, c) same =
            let (n_is, added) =
              send_payload_and_flush-eq-ok net filesize s.client_received n s.source.client_stream c
                moves (omega arith) same in
            let part = file_part s.client_received filesize ∷ [] in
            back_off-IsStreamed _ (record {
              parts = h.parts ++ part;
              added =
                  ap (λ (d : Connection). d.sent) added
                  ∙ ap (λ l. l ++ part) h.added
                  ∙ append_assoc before h.parts part;
              so_far = omega (arith, payload_length-append h.parts part, h.so_far, n_is);
              within = omega (arith, n_is);
            })

    on_stall-RoundStreamed :
        (s : Stream ClientFileSource)
        → IsStreamed s
        → RoundStreamed (on_stall src complete max_polls s)
    unfolding on_stall
    on_stall-RoundStreamed s h = elim (Bool-cases (leb max_polls s.polls_without_progress)) [
      | inl stalled ↦ rw stalled tt
      | inr patient ↦ rw patient (back_off-IsStreamed s h)
    ]

    on_poll-RoundStreamed :
        (s : Stream ClientFileSource) (answer : Result ℕ IoError) (source : ClientFileSource)
        → MovesBytes net.sendfile
        → ((size : ℕ) → answer ≡ ok size → size ≤ complete)
        → source.client_stream ≡ s.source.client_stream
        → IsStreamed s
        → RoundStreamed (on_poll src complete max_polls s (answer, source))
    unfolding on_poll
    on_poll-RoundStreamed s (err e) source moves fits same h = tt
    on_poll-RoundStreamed s (ok filesize) source moves fits same h =
        elim (Bool-cases (ltb s.client_received filesize)) [
          | inl grown ↦ rw grown (
              on_send-RoundStreamed filesize (record s { source = source }) moves (ground arith)
                (fits filesize refl)
                (record {
                  parts = h.parts;
                  added = ap (λ (d : Connection). d.sent) same ∙ h.added;
                  so_far = h.so_far;
                  within = h.within;
                }))
          | inr stalled ↦ rw stalled (
              on_stall-RoundStreamed _ (record {
                parts = h.parts;
                added = ap (λ (d : Connection). d.sent) same ∙ h.added;
                so_far = h.so_far;
                within = h.within;
              }))
        ]

    round-RoundStreamed :
        (s : Stream ClientFileSource)
        → MovesBytes net.sendfile
        → NeverLonger
        → IsStreamed s
        → RoundStreamed (round src complete max_polls s)
    unfolding round client_file_source
    round-RoundStreamed s moves fits h =
        on_poll-RoundStreamed (record s { polls = s.polls + 1 }) (sizes s.source.polls) _ moves
          (λ size same. fits s.source.polls size same) refl
          (record { parts = h.parts; added = h.added; so_far = h.so_far; within = h.within })

    -- The loop returns without an error only when everything was streamed.
    ServedStreamed : Served ClientFileSource → Type 0
    ServedStreamed (served t) = IsStreamed t × (complete ≤ t.client_received)
    ServedStreamed (failed e t) = Unit
    ServedStreamed Served.out_of_fuel = Unit

    goes_on-ServedStreamed :
        (r : Round ClientFileSource) (loop : Stream ClientFileSource → Served ClientFileSource)
        → ((u : Stream ClientFileSource) → IsStreamed u → ServedStreamed (loop u))
        → RoundStreamed r
        → ServedStreamed (elim r [ next u ↦ loop u | fail e u ↦ failed e u ])
    unfolding ServedStreamed
    goes_on-ServedStreamed (next u) loop later k = later u k
    goes_on-ServedStreamed (fail e u) loop later k = tt

    stream_loop-ServedStreamed :
        (fuel : ℕ) (s : Stream ClientFileSource)
        → MovesBytes net.sendfile
        → NeverLonger
        → IsStreamed s
        → ServedStreamed (stream_loop src complete max_polls fuel s)
    unfolding stream_loop ServedStreamed
    stream_loop-ServedStreamed zero s moves fits h = tt
    stream_loop-ServedStreamed (suc fuel) s moves fits h =
        let later : (u : Stream ClientFileSource)
            → IsStreamed u
            → ServedStreamed (stream_loop src complete max_polls fuel u) =
          λ u k. stream_loop-ServedStreamed fuel u moves fits k in
        elim (Bool-cases (ltb s.client_received complete)) [
          | inr all ↦ rw (all, ServedStreamed, stream_loop) (h, ground arith)
          | inl more ↦
              rw (more, ServedStreamed, stream_loop)
                (goes_on-ServedStreamed (round src complete max_polls s)
                  (stream_loop src complete max_polls fuel) later
                  (round-RoundStreamed s moves fits h))
        ]

-- A stream that ends without an error has sent the bytes from the start to the end of the file.
after_stream-eq-ok :
    (net : Network) (sizes : ℕ → Result ℕ IoError) (complete max_polls start : ℕ)
    (before : List Sent) (r : Served ClientFileSource) (c c' : Connection) (u : Unit {0})
    → ServedStreamed net sizes complete max_polls start before r
    → after_stream r c ≡ (ok u, c')
    → (parts : List Sent) × (c'.sent ≡ before ++ parts) × (payload_length parts + start ≡ complete)
unfolding after_stream ServedStreamed
after_stream-eq-ok net sizes complete m start before (served t) c c' u (k, all) h =
    let same : t.source.client_stream ≡ c' = ap (λ (p : Io Unit). p.1) h in
    (
      k.parts,
      ap (λ (d : Connection). d.sent) (sym same) ∙ k.added,
      omega (arith, k.so_far, k.within),
    )
after_stream-eq-ok net sizes complete m start before (failed e t) c c' u k h = cc
after_stream-eq-ok net sizes complete m start before Served.out_of_fuel c c' u k h = cc

-- A file that is still growing and is served without an error makes one answer: the header declares the
-- length of what follows it. This holds when `now` is one line, `sendfile64` moves at least one byte and
-- no more than asked for, the file is never longer than the declared length behind the start, and the
-- numbers fit 64 bits.
pub serve_from_growing_file-IsAnswered :
    (net : Network) (sizes : ℕ → Result ℕ IoError) (content_length : ℕ) (resume : Option ℕ)
    (c c' : Connection)
    → is_one_line net.now ≡ true
    → MovesBytes net.sendfile
    → NeverLonger net sizes (content_length + start_or_zero resume)
    → content_length < 2 ^ 64
    → IsStart resume
    → serve_from_growing_file net sizes content_length resume c ≡ (ok tt, c')
    → IsAnswered c c'
unfolding serve_from_growing_file serve_growing_file_loop
serve_from_growing_file-IsAnswered net sizes n resume c c' one moves fits small starts h =
    let start = start_or_zero resume in
    let header = file_header net n resume remote_mirror in
    let (u, c1, first, h1) = and_then-eq-ok (write_all net header c) _ tt c' h in
    let source : ClientFileSource = record { client_stream = c1; polls = 0 } in
    let streamed =
      stream_loop-ServedStreamed net sizes (n + start) max_polls_without_progress start c1.sent
        (stream_fuel n max_polls_without_progress) (stream_from source start) moves fits
        (record {
          parts = [];
          added = sym (append-nil c1.sent);
          so_far = omega arith;
          within = omega arith;
        }) in
    let (parts, added, all) =
      after_stream-eq-ok net sizes (n + start) max_polls_without_progress start c1.sent _ c1 c' tt
        streamed h1 in
    record {
      answer = text header ∷ parts;
      added =
          added
          ∙ ap (λ (d : Connection). d.sent ++ parts) (write_all-eq-ok net header c c1 u first)
          ∙ append_assoc c.sent (text header ∷ []) parts;
      framed =
          file_header-declared net n resume remote_mirror one small starts
          ∙ ap some (omega (arith, all));
    }
