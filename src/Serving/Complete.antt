-- ===== src/Serving/Complete.antt =====
-- Serving a file that is complete.
use mathlib.Core.List.{append_assoc}
use flexo.Base.{
  ℕ, ◌+◌, ◌-◌, ◌^◌, ◌≤◌, ◌<◌, ◌≡◌, ap, sym, ◌∙◌, true, false, [], ◌∷◌, ◌++◌, Option, none, some,
  arith, inl, inr,
}
use flexo.Job.{ok}
use flexo.Headers.{cache}
use flexo.Headers.Declared.{is_one_line, IsStart}
use flexo.Growing.{Payload, sent, os_error, send_payload}
use flexo.Growing.Sendfile.{MovesBytes, send_payload-Ends}
use flexo.Transfer.{u64}
use flexo.Serving.{
  text, file_part, Connection, Network, Io, add_sent, write_all, after_payload, set_nodelay,
  send_payload_and_flush, start_or_zero, file_header, serve_from_complete_file,
}
use flexo.Serving.Framing.{
  IsAnswered, and_then-eq-ok, write_all-eq-ok, set_nodelay-eq-ok, file_header-declared,
}

module _ (net : Network) where
  after_payload-eq-ok :
      (bytes_sent n : ℕ) (p : Payload) (c c' : Connection)
      → after_payload net bytes_sent p c ≡ (ok n, c')
      → (p ≡ sent n) × (c' ≡ add_sent (file_part bytes_sent n) c)
  unfolding after_payload
  after_payload-eq-ok b n (sent offset) c c' h =
      let result = ap (λ (p : Io ℕ). p.0) h in
      let same : offset ≡ n = cc result in
      (ap sent same, sym (ap (λ (p : Io ℕ). p.1) h) ∙ ap (λ o. add_sent (file_part b o) c) same)
  after_payload-eq-ok b n (os_error offset) c c' h = cc
  after_payload-eq-ok b n Payload.out_of_fuel c c' h = cc

  -- What is sent without an error is the rest of the file.
  pub send_payload_and_flush-eq-ok :
      (filesize bytes_sent n : ℕ) (c c' : Connection)
      → MovesBytes net.sendfile
      → bytes_sent ≤ filesize
      → send_payload_and_flush net filesize bytes_sent c ≡ (ok n, c')
      → (n ≡ filesize) × (c' ≡ add_sent (file_part bytes_sent filesize) c)
  unfolding send_payload_and_flush
  send_payload_and_flush-eq-ok filesize b n c c' moves le h =
      let after = after_payload net b (send_payload net.sendfile filesize b) c in
      let (u, c1, on, h1) = and_then-eq-ok (set_nodelay net true after.1) _ n c' h in
      let (v, c2, off, h2) = and_then-eq-ok (set_nodelay net false c1) _ n c' h1 in
      let same : c' ≡ after.1 =
        sym (ap (λ (p : Io ℕ). p.1) h2)
        ∙ set_nodelay-eq-ok net false c1 c2 v off
        ∙ set_nodelay-eq-ok net true after.1 c1 u on in
      let done : after ≡ (ok n, c') = λ i. (ap (λ (p : Io ℕ). p.0) h2 i, sym same i) in
      let (all, added) = after_payload-eq-ok b n (send_payload net.sendfile filesize b) c c' done in
      elim (send_payload-Ends net.sendfile filesize b moves le) [
        | inl complete ↦
            let n_is : n ≡ filesize = cc (sym all ∙ complete) in
            (n_is, added ∙ ap (λ o. add_sent (file_part b o) c) n_is)
        | inr (offset, stopped, lo, hi) ↦ cc (sym all ∙ stopped)
      ]

  start_or_zero-IsStart :
      (filesize : ℕ) (resume : Option ℕ)
      → start_or_zero resume ≤ filesize
      → filesize < 2 ^ 64
      → IsStart resume
  start_or_zero-IsStart filesize none le small = tt
  start_or_zero-IsStart filesize (some r) le small = omega arith

  -- A complete file that is served without an error makes one answer: the header declares the length of
  -- what follows it, which is the file from the start on.
  pub serve_from_complete_file-IsAnswered :
      (filesize : ℕ) (resume : Option ℕ) (n : ℕ) (c c' : Connection)
      → is_one_line net.now ≡ true
      → MovesBytes net.sendfile
      → start_or_zero resume ≤ filesize
      → filesize < 2 ^ 64
      → serve_from_complete_file net filesize resume c ≡ (ok n, c')
      → IsAnswered c c'
  unfolding serve_from_complete_file
  serve_from_complete_file-IsAnswered filesize resume n c c' one moves le small h =
      let start = start_or_zero resume in
      let length = u64 (filesize + 2 ^ 64 - start) in
      let header = file_header net length resume cache in
      let (u, c1, first, h1) = and_then-eq-ok (write_all net header c) _ n c' h in
      let (n_is, added) = send_payload_and_flush-eq-ok filesize start n c1 c' moves le h1 in
      let start_fits = start_or_zero-IsStart filesize resume le small in
      let length_is : length ≡ filesize - start + 0 = omega arith in
      record {
        answer = text header ∷ file_part start filesize ∷ [];
        added =
            ap (λ (d : Connection). d.sent) added
            ∙ ap (λ (d : Connection). d.sent ++ file_part start filesize ∷ [])
                (write_all-eq-ok net header c c1 u first)
            ∙ append_assoc c.sent (text header ∷ []) (file_part start filesize ∷ []);
        framed =
            file_header-declared net length resume cache one (omega arith) start_fits
            ∙ ap some length_is;
      }
