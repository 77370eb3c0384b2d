-- ===== src/Growing/Sendfile.antt =====
-- flexo/src/main.rs: the loop of `send_payload`, and how it ends.
use native.Mathlib.Nat.{le_refl}
use flexo.Base.{
  ℕ, zero, suc, ◌+◌, ◌-◌, ◌≤◌, ◌<◌, ◌≡◌, refl, ap, Option, none, some, true, false, arith, ltb,
  Bool-cases, Option-cases, inl, inr, ◌⊎◌,
}
use flexo.Growing.{Payload, sent, os_error, sendfile_count, send_loop, send_payload}

module _ (sendfile : ℕ → ℕ → ℕ → Option ℕ) where
  -- What the manual of `sendfile64` says of a file with the bytes asked for: a call that does not fail
  -- moves at least one byte, and no more than asked.
  abbrev pub MovesBytes : Type 0
  MovesBytes =
      (n offset count size : ℕ)
      → sendfile n offset count ≡ some size
      → 0 < count
      → (0 < size) × (size ≤ count)

  abbrev pub Ends : ℕ → ℕ → Payload → Type 0
  Ends filesize bytes_sent p =
      (p ≡ sent filesize)
      ⊎ ((offset : ℕ) × (p ≡ os_error offset) × (bytes_sent ≤ offset) × (offset < filesize))

  Ends-weaken : (filesize a b : ℕ) (p : Payload) → a ≤ b → Ends filesize b p → Ends filesize a p
  Ends-weaken filesize a b p le (inl e) = inl e
  Ends-weaken filesize a b p le (inr (o, e, l, r)) = inr (o, e, omega arith, r)

  send_loop_done :
      (filesize fuel n offset : ℕ)
      → ltb offset filesize ≡ false
      → send_loop sendfile filesize (suc fuel) n offset ≡ sent offset
  unfolding send_loop
  send_loop_done filesize fuel n offset h = ground arith

  send_loop_error :
      (filesize fuel n offset : ℕ)
      → ltb offset filesize ≡ true
      → sendfile n offset (sendfile_count filesize offset) ≡ none
      → send_loop sendfile filesize (suc fuel) n offset ≡ os_error offset
  unfolding send_loop
  send_loop_error filesize fuel n offset h e = ground arith

  send_loop_more :
      (filesize fuel n offset : ℕ) {size : ℕ}
      → ltb offset filesize ≡ true
      → sendfile n offset (sendfile_count filesize offset) ≡ some size
      → send_loop sendfile filesize (suc fuel) n offset
        ≡ send_loop sendfile filesize fuel (n + 1) (offset + size)
  unfolding send_loop
  send_loop_more filesize fuel n offset h e = ground arith

  send_loop-Ends :
      (filesize fuel n offset : ℕ)
      → MovesBytes
      → offset ≤ filesize
      → filesize - offset < fuel
      → Ends filesize offset (send_loop sendfile filesize fuel n offset)
  unfolding send_loop
  send_loop-Ends filesize zero n offset moves le h = absurd (omega arith)
  send_loop-Ends filesize (suc fuel) n offset moves le h = elim (Bool-cases (ltb offset filesize)) [
    | inl more ↦ elim (Option-cases (sendfile n offset (sendfile_count filesize offset))) [
      | inl e ↦
          rw (send_loop_error filesize fuel n offset more e)
            (inr (offset, refl, le_refl offset, ground arith))
      | inr (size, e) ↦
          let (pos, le') : (0 < size) × (size ≤ sendfile_count filesize offset) =
            moves n offset _ size e (ground arith) in
          rw (send_loop_more filesize fuel n offset more e) (
            Ends-weaken filesize offset (offset + size) _ (omega arith) (
              send_loop-Ends filesize fuel (n + 1) (offset + size) moves (omega arith)
                (omega arith)))
    ]
    | inr done ↦ rw (send_loop_done filesize fuel n offset done) (inl (ap sent (ground arith)))
  ]

  -- From an offset within the file, `send_payload` ends with the whole file sent, or with the error of
  -- a call of `sendfile64`, at an offset within the file.
  pub send_payload-Ends :
      (filesize bytes_sent : ℕ)
      → MovesBytes
      → bytes_sent ≤ filesize
      → Ends filesize bytes_sent (send_payload sendfile filesize bytes_sent)
  unfolding send_payload
  send_payload-Ends filesize bytes_sent moves le =
      send_loop-Ends filesize (filesize - bytes_sent + 1) 0 bytes_sent moves le (omega arith)
