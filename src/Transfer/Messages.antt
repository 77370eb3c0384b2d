-- ===== src/Transfer/Messages.antt =====
-- What the client's thread is told during a transfer.
use flexo.Base.{
  ℕ, ◌≡◌, refl, ◌∙◌, Bool, true, false, ◌||◌, List, [], ◌∷◌, ◌++◌, Option, none, some, Bool-cases,
  Option-cases, inl, inr, ◌==◌, leb, ltb, length, ◌+◌, ◌&&◌,
}
use flexo.Base.Text.{Text}
use flexo.Job.{FlexoProgress, job_size, progress, completed, order_error, Result, ok, err}
use flexo.Transfer.{
  DownloadState, HeaderOutcome, received, unavailable, Status, complete, partial, invalid, u64,
  send, find_content_length, on_content_length, on_response, header, on_status, on_written,
  write_after, write, Call, on_header, on_write, call, transfer,
}

-- whether the messages say that the file is not to be had
unfoldable pub told_unavailable : List FlexoProgress → Bool
told_unavailable [] = false
told_unavailable (FlexoProgress.unavailable ∷ ms) = true
told_unavailable (job_size n ∷ ms) = told_unavailable ms
told_unavailable (progress n ∷ ms) = told_unavailable ms
told_unavailable (completed ∷ ms) = told_unavailable ms
told_unavailable (order_error ∷ ms) = told_unavailable ms

-- the size in the latest message that has one, or else `n`
unfoldable pub last_size : Option ℕ → List FlexoProgress → Option ℕ
last_size n [] = n
last_size n (FlexoProgress.unavailable ∷ ms) = last_size n ms
last_size n (job_size m ∷ ms) = last_size (some m) ms
last_size n (progress m ∷ ms) = last_size n ms
last_size n (completed ∷ ms) = last_size n ms
last_size n (order_error ∷ ms) = last_size n ms

told_unavailable-append :
    (ms ns : List FlexoProgress)
    → told_unavailable (ms ++ ns) ≡ (told_unavailable ms || told_unavailable ns)
unfolding told_unavailable
told_unavailable-append [] ns = refl
told_unavailable-append (FlexoProgress.unavailable ∷ ms) ns = refl
told_unavailable-append (job_size n ∷ ms) ns = told_unavailable-append ms ns
told_unavailable-append (progress n ∷ ms) ns = told_unavailable-append ms ns
told_unavailable-append (completed ∷ ms) ns = told_unavailable-append ms ns
told_unavailable-append (order_error ∷ ms) ns = told_unavailable-append ms ns

last_size-append :
    (n : Option ℕ) (ms ns : List FlexoProgress)
    → last_size n (ms ++ ns) ≡ last_size (last_size n ms) ns
unfolding last_size
last_size-append n [] ns = refl
last_size-append n (FlexoProgress.unavailable ∷ ms) ns = last_size-append n ms ns
last_size-append n (job_size m ∷ ms) ns = last_size-append (some m) ms ns
last_size-append n (progress m ∷ ms) ns = last_size-append n ms ns
last_size-append n (completed ∷ ms) ns = last_size-append n ms ns
last_size-append n (order_error ∷ ms) ns = last_size-append n ms ns

-- What each call keeps, from a state on: a cacheable file's `.cfs` size is the last size announced, and
-- while another mirror may be tried the client is not told that the file is unavailable.
pub record IsConsistent (s : DownloadState) : Type 0 where
  pub cacheable : s.is_cacheable ≡ true
  pub other_chance : s.last_chance ≡ false
  pub announced : last_size none s.tx ≡ s.cfs
  pub not_told : told_unavailable s.tx ≡ false

sent-IsConsistent :
    (m : FlexoProgress) (s t : DownloadState)
    → IsConsistent s
    → t.is_cacheable ≡ s.is_cacheable
    → t.last_chance ≡ s.last_chance
    → t.tx ≡ s.tx ++ m ∷ []
    → told_unavailable (m ∷ []) ≡ false
    → last_size s.cfs (m ∷ []) ≡ t.cfs
    → IsConsistent t
sent-IsConsistent m s t c e l tx quiet same = record {
  cacheable = e ∙ c.cacheable;
  other_chance = l ∙ c.other_chance;
  announced = rw (tx, last_size-append none s.tx (m ∷ []), c.announced) same;
  not_told = rw (tx, told_unavailable-append s.tx (m ∷ []), c.not_told) quiet;
}

on_content_length-IsConsistent :
    (n : ℕ) (s : DownloadState) → IsConsistent s → IsConsistent (on_content_length n s)
unfolding on_content_length send told_unavailable last_size
on_content_length-IsConsistent n s c =
    sent-IsConsistent (job_size (u64 (s.size_written + n))) s _ c refl refl refl refl
      (rw c.cacheable refl)

on_response-IsConsistent :
    (code : ℕ) (headers : List (Text × Text)) (s : DownloadState)
    → IsConsistent s
    → IsConsistent (on_response code headers s).1
unfolding on_response send told_unavailable last_size
on_response-IsConsistent code headers s c = elim (Bool-cases (code == 200 || code == 206)) [
  | inl good ↦ rw good (elim (Option-cases (find_content_length headers)) [
    | inl e ↦ rw e c
    | inr (n, e) ↦ rw e (on_content_length-IsConsistent n s c)
  ])
  | inr bad ↦ rw bad (elim (Bool-cases (code == 416)) [
    | inl full ↦ rw full (sent-IsConsistent completed s _ c refl refl refl refl refl)
    | inr other ↦ rw other (elim (Bool-cases (leb 300 code && ltb code 400)) [
      | inl redirect ↦ rw redirect (record {
        cacheable = c.cacheable;
        other_chance = c.other_chance;
        announced = c.announced;
        not_told = c.not_told;
      })
      | inr fail ↦
          rw (fail, c.other_chance)
            (record {
              cacheable = c.cacheable;
              other_chance = refl;
              announced = c.announced;
              not_told = c.not_told;
            })
    ])
  ])
]

module _ (parse : Text → Status) (write_all : Text → Text → Result Text Text)
    (metadata_len : Text → ℕ) where
  abbrev kept :
      {s t : DownloadState}
      → IsConsistent s
      → t.is_cacheable ≡ s.is_cacheable
      → t.last_chance ≡ s.last_chance
      → t.tx ≡ s.tx
      → t.cfs ≡ s.cfs
      → IsConsistent t
  kept c e l tx cfs = record {
    cacheable = e ∙ c.cacheable;
    other_chance = l ∙ c.other_chance;
    announced = rw (tx, cfs) c.announced;
    not_told = rw tx c.not_told;
  }

  on_status-IsConsistent :
      (p : Status) (s : DownloadState)
      → IsConsistent s
      → IsConsistent (on_status parse write_all metadata_len p s).1
  unfolding on_status
  on_status-IsConsistent (complete code headers) s c = on_response-IsConsistent code headers s c
  on_status-IsConsistent partial s c = c
  on_status-IsConsistent invalid s c = c

  on_written-IsConsistent :
      (n : ℕ) (r : Result Text Text) (s : DownloadState)
      → IsConsistent s
      → IsConsistent (on_written parse write_all metadata_len n r s).1
  unfolding on_written send told_unavailable last_size
  on_written-IsConsistent n (ok file) s c =
      sent-IsConsistent (progress (metadata_len file)) s _ c refl refl refl refl refl
  on_written-IsConsistent n (err file) s c = kept c refl refl refl refl

  write_after-IsConsistent :
      (o : Option HeaderOutcome) (data' : Text) (s : DownloadState)
      → IsConsistent s
      → IsConsistent (write_after parse write_all metadata_len o data' s).1
  unfolding write_after
  write_after-IsConsistent none data' s c = c
  write_after-IsConsistent (some unavailable) data' s c = c
  write_after-IsConsistent (some (received n)) data' s c =
      on_written-IsConsistent (length data') (write_all s.file data') _ (kept c refl refl refl refl)

  call-IsConsistent :
      (k : Call parse write_all metadata_len) (s : DownloadState)
      → IsConsistent s
      → IsConsistent (call parse write_all metadata_len k s)
  unfolding call header write
  call-IsConsistent (on_header data') s c =
      on_status-IsConsistent (parse (s.received_header ++ data'))
        (record s { received_header = s.received_header ++ data' }) (kept c refl refl refl refl)
  call-IsConsistent (on_write data') s c = write_after-IsConsistent s.header_success data' s c

  -- While the transfer of a cacheable file is not the last chance, whatever headers and bodies arrive:
  -- the size for the `.cfs` file stays the last size that the client's thread was told, and that thread
  -- is not told that the file is unavailable.
  pub transfer-IsConsistent :
      (calls : List (Call parse write_all metadata_len)) (s : DownloadState)
      → IsConsistent s
      → IsConsistent (transfer parse write_all metadata_len calls s)
  unfolding transfer
  transfer-IsConsistent [] s c = c
  transfer-IsConsistent (k ∷ calls) s c = transfer-IsConsistent calls _ (call-IsConsistent k s c)
