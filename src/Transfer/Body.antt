-- ===== src/Transfer/Body.antt =====
-- What a transfer writes to the file.
use flexo.Base.{
  ℕ, ◌≡◌, List, [], ◌∷◌, ◌++◌, Option, none, some, arith, length, length-append, Option-cases, inl,
  inr,
}
use flexo.Base.Text.{Text}
use flexo.Job.{Result, ok}
use flexo.Transfer.{
  DownloadState, HeaderOutcome, received, unavailable, Status, complete, partial, invalid, u64,
  send, find_content_length, on_content_length, on_response, header, on_status, on_written,
  write_after, write, Call, on_header, on_write, call, transfer,
}

-- The size that the next content length is added to is that of the file.
abbrev pub IsSized : DownloadState → Type 0
IsSized s = s.size_written ≡ u64 (length s.file)

on_response-IsSized :
    (code : ℕ) (headers : List (Text × Text)) (s : DownloadState)
    → IsSized s
    → IsSized (on_response code headers s).1
unfolding on_response on_content_length send
on_response-IsSized code headers s h = elim (Option-cases (find_content_length headers)) [
  | inl e ↦ rw e (ground arith)
  | inr (n, e) ↦ rw e (ground arith)
]

module _ (parse : Text → Status) (write_all : Text → Text → Result Text Text)
    (metadata_len : Text → ℕ) where
  -- `write_all` does not fail, and appends.
  abbrev pub Appends : Type 0
  Appends = (file data' : Text) → write_all file data' ≡ ok (file ++ data')

  on_status-IsSized :
      (p : Status) (s : DownloadState)
      → IsSized s
      → IsSized (on_status parse write_all metadata_len p s).1
  unfolding on_status
  on_status-IsSized (complete code headers) s h = on_response-IsSized code headers s h
  on_status-IsSized partial s h = h
  on_status-IsSized invalid s h = h

  write_after-IsSized :
      (o : Option HeaderOutcome) (data' : Text) (s : DownloadState)
      → Appends
      → IsSized s
      → IsSized (write_after parse write_all metadata_len o data' s).1
  unfolding write_after on_written send
  write_after-IsSized none data' s appends h = h
  write_after-IsSized (some unavailable) data' s appends h = h
  write_after-IsSized (some (received n)) data' s appends h =
      rw (appends s.file data') (omega (arith, h, length-append s.file data'))

  call-IsSized :
      (k : Call parse write_all metadata_len) (s : DownloadState)
      → Appends
      → IsSized s
      → IsSized (call parse write_all metadata_len k s)
  unfolding call header write
  call-IsSized (on_header data') s appends h =
      on_status-IsSized (parse (s.received_header ++ data'))
        (record s { received_header = s.received_header ++ data' }) h
  call-IsSized (on_write data') s appends h = write_after-IsSized s.header_success data' s appends h

  -- As long as no write fails, `size_written` is the length of the file, modulo 2 ^ 64, whatever
  -- headers and bodies arrive.
  pub transfer-IsSized :
      (calls : List (Call parse write_all metadata_len)) (s : DownloadState)
      → Appends
      → IsSized s
      → IsSized (transfer parse write_all metadata_len calls s)
  unfolding transfer
  transfer-IsSized [] s appends h = h
  transfer-IsSized (k ∷ calls) s appends h =
      transfer-IsSized calls _ appends (call-IsSized k s appends h)
