-- ===== src/Server/FirstMessage.antt =====
-- flexo/src/lib.rs, the attempts of the thread that downloads, and flexo/src/main.rs,
-- `receive_content_length`, which waits for the first message of that thread.
use flexo.Base.{
  ℕ, ◌≡◌, ◌≢◌, refl, Bool, true, false, ◌||◌, ◌&&◌, List, [], ◌∷◌, ◌++◌, Option, none, some,
  Bool-cases, Option-cases, inl, inr, ◌==◌, leb, ltb, length,
}
use flexo.Base.Text.{Text}
use flexo.Job.{FlexoProgress, job_size, progress, completed, order_error, Result, ok, err}
use flexo.Growing.{IoError}
use flexo.Paths.{DownloadOrder}
use flexo.Transfer.{
  DownloadState, HeaderOutcome, received, unavailable, Status, complete, partial, invalid, send,
  find_content_length, on_content_length, on_response, header, on_status, on_written, write_after,
  write, Call, on_header, on_write, call, transfer,
}
use flexo.Download.{OrderError, new_download_state}
use flexo.Server.{RecvTimeoutError, disconnected, receive_content_length}

-- What an attempt meets: whether it is the last, what opening the file gives, and the calls of the
-- handler.
pub record Trial (C : Type 0) : Type 0 where
  pub last_chance : Bool
  pub opened : Result Text IoError
  pub calls : List C

module _ (parse : Text → Status) (write_all : Text → Text → Result Text Text)
    (metadata_len : Text → ℕ) where
  unfoldable pub sent_after :
      Result DownloadState OrderError
      → List (Call parse write_all metadata_len)
      → List FlexoProgress
  sent_after (err e) calls = FlexoProgress.order_error ∷ []
  sent_after (ok s) calls = (transfer parse write_all metadata_len calls s).tx

  -- The messages of the attempts at an order, oldest first.
  unfoldable pub thread_messages :
      DownloadOrder → List (Trial (Call parse write_all metadata_len)) → List FlexoProgress
  unfolding sent_after
  thread_messages order [] = []
  thread_messages order (t ∷ ts) =
      sent_after (new_download_state order t.last_chance t.opened) t.calls
      ++ thread_messages order ts

-- What is received when the thread has sent these messages and ended.
unfoldable pub first_received : List FlexoProgress → Result FlexoProgress RecvTimeoutError
first_received [] = err disconnected
first_received (m ∷ ms) = ok m

-- No progress is told before anything else.
starts_well : List FlexoProgress → Bool
starts_well [] = true
starts_well (progress n ∷ ms) = false
starts_well (job_size n ∷ ms) = true
starts_well (completed ∷ ms) = true
starts_well (FlexoProgress.unavailable ∷ ms) = true
starts_well (order_error ∷ ms) = true

has_begun : List FlexoProgress → Bool
has_begun [] = false
has_begun (m ∷ ms) = true

has_begun-append : (ms : List FlexoProgress) (m : FlexoProgress) → has_begun (ms ++ m ∷ []) ≡ true
unfolding has_begun
has_begun-append [] m = refl
has_begun-append (x ∷ ms) m = refl

starts_well-append_begun :
    (ms ns : List FlexoProgress)
    → has_begun ms ≡ true
    → starts_well ms ≡ true
    → starts_well (ms ++ ns) ≡ true
unfolding starts_well has_begun
starts_well-append_begun [] ns b h = cc
starts_well-append_begun (job_size n ∷ ms) ns b h = refl
starts_well-append_begun (progress n ∷ ms) ns b h = h
starts_well-append_begun (completed ∷ ms) ns b h = refl
starts_well-append_begun (FlexoProgress.unavailable ∷ ms) ns b h = refl
starts_well-append_begun (order_error ∷ ms) ns b h = refl

starts_well-append :
    (ms ns : List FlexoProgress)
    → starts_well ms ≡ true
    → starts_well ns ≡ true
    → starts_well (ms ++ ns) ≡ true
unfolding has_begun
starts_well-append [] ns h k = k
starts_well-append (m ∷ ms) ns h k = starts_well-append_begun (m ∷ ms) ns refl h

receive_content_length-first :
    (ms : List FlexoProgress)
    → starts_well ms ≡ true
    → receive_content_length (first_received ms) ≢ none
unfolding receive_content_length first_received starts_well
receive_content_length-first [] h e = cc
receive_content_length-first (job_size n ∷ ms) h e = cc
receive_content_length-first (progress n ∷ ms) h e = cc
receive_content_length-first (completed ∷ ms) h e = cc
receive_content_length-first (FlexoProgress.unavailable ∷ ms) h e = cc
receive_content_length-first (order_error ∷ ms) h e = cc

-- When a header has been accepted, something has been told.
record IsAnnounced (s : DownloadState) : Type 0 where
  well : starts_well s.tx ≡ true
  told : (n : ℕ) → s.header_success ≡ some (received n) → has_begun s.tx ≡ true

sent-IsAnnounced :
    (m : FlexoProgress) (s t : DownloadState)
    → IsAnnounced s
    → t.tx ≡ s.tx ++ m ∷ []
    → starts_well (m ∷ []) ≡ true
    → IsAnnounced t
sent-IsAnnounced m s t a tx good = record {
  well = rw tx (starts_well-append s.tx (m ∷ []) a.well good);
  told = λ n e. rw tx (has_begun-append s.tx m);
}

on_response-IsAnnounced :
    (code : ℕ) (headers : List (Text × Text)) (s : DownloadState)
    → IsAnnounced s
    → IsAnnounced (on_response code headers s).1
unfolding on_response on_content_length send starts_well
on_response-IsAnnounced code headers s a = elim (Bool-cases (code == 200 || code == 206)) [
  | inl good ↦ rw good (elim (Option-cases (find_content_length headers)) [
    | inl e ↦ rw e a
    | inr (n, e) ↦ rw e (sent-IsAnnounced (job_size _) s _ a refl refl)
  ])
  | inr bad ↦ rw bad (elim (Bool-cases (code == 416)) [
    | inl full ↦ rw full (sent-IsAnnounced completed s _ a refl refl)
    | inr other ↦ rw other (elim (Bool-cases (leb 300 code && ltb code 400)) [
      | inl redirect ↦ rw redirect (record { well = a.well; told = a.told })
      | inr fail ↦ rw fail (elim (Bool-cases s.last_chance) [
        | inl last ↦ rw last (sent-IsAnnounced FlexoProgress.unavailable s _ a refl refl)
        | inr early ↦ rw early (record { well = a.well; told = λ n e. cc })
      ])
    ])
  ])
]

module _ (parse : Text → Status) (write_all : Text → Text → Result Text Text)
    (metadata_len : Text → ℕ) where
  on_status-IsAnnounced :
      (p : Status) (s : DownloadState)
      → IsAnnounced s
      → IsAnnounced (on_status parse write_all metadata_len p s).1
  unfolding on_status
  on_status-IsAnnounced (complete code headers) s a = on_response-IsAnnounced code headers s a
  on_status-IsAnnounced partial s a = a
  on_status-IsAnnounced invalid s a = a

  on_written-IsAnnounced :
      (n : ℕ) (r : Result Text Text) (s : DownloadState)
      → has_begun s.tx ≡ true
      → IsAnnounced s
      → IsAnnounced (on_written parse write_all metadata_len n r s).1
  unfolding on_written send
  on_written-IsAnnounced n (ok file) s b a = record {
    well = starts_well-append_begun s.tx (progress (metadata_len file) ∷ []) b a.well;
    told = λ k e. has_begun-append s.tx (progress (metadata_len file));
  }
  on_written-IsAnnounced n (err file) s b a = record { well = a.well; told = a.told }

  write_after-IsAnnounced :
      (o : Option HeaderOutcome) (data' : Text) (s : DownloadState)
      → s.header_success ≡ o
      → IsAnnounced s
      → IsAnnounced (write_after parse write_all metadata_len o data' s).1
  unfolding write_after
  write_after-IsAnnounced none data' s e a = a
  write_after-IsAnnounced (some unavailable) data' s e a = a
  write_after-IsAnnounced (some (received n)) data' s e a =
      on_written-IsAnnounced (length data') (write_all s.file data') _ (a.told n e)
        (record { well = a.well; told = a.told })

  call-IsAnnounced :
      (k : Call parse write_all metadata_len) (s : DownloadState)
      → IsAnnounced s
      → IsAnnounced (call parse write_all metadata_len k s)
  unfolding call header write
  call-IsAnnounced (on_header data') s a =
      on_status-IsAnnounced (parse (s.received_header ++ data'))
        (record s { received_header = s.received_header ++ data' })
        (record { well = a.well; told = a.told })
  call-IsAnnounced (on_write data') s a = write_after-IsAnnounced s.header_success data' s refl a

  transfer-IsAnnounced :
      (calls : List (Call parse write_all metadata_len)) (s : DownloadState)
      → IsAnnounced s
      → IsAnnounced (transfer parse write_all metadata_len calls s)
  unfolding transfer
  transfer-IsAnnounced [] s a = a
  transfer-IsAnnounced (k ∷ calls) s a = transfer-IsAnnounced calls _ (call-IsAnnounced k s a)

  starts_well-sent_after :
      (order : DownloadOrder) (last_chance : Bool) (opened : Result Text IoError)
      (calls : List (Call parse write_all metadata_len))
      → starts_well (
          sent_after parse write_all metadata_len
            (new_download_state order last_chance opened)
            calls)
        ≡ true
  unfolding sent_after new_download_state starts_well
  starts_well-sent_after order last_chance (err e) calls = refl
  starts_well-sent_after order last_chance (ok content) calls =
      (transfer-IsAnnounced calls _ (record { well = refl; told = λ n e. cc })).well

  starts_well-thread_messages :
      (order : DownloadOrder) (ts : List (Trial (Call parse write_all metadata_len)))
      → starts_well (thread_messages parse write_all metadata_len order ts) ≡ true
  unfolding thread_messages starts_well
  starts_well-thread_messages order [] = refl
  starts_well-thread_messages order (t ∷ ts) =
      starts_well-append _ _ (starts_well-sent_after order t.last_chance t.opened t.calls)
        (starts_well-thread_messages order ts)

  -- Whatever files are opened, headers received and bodies written in the attempts at an order: the
  -- first message of the thread that downloads is none on which the thread of the client panics.
  pub receive_content_length-thread_messages :
      (order : DownloadOrder) (ts : List (Trial (Call parse write_all metadata_len)))
      → receive_content_length
          (first_received (thread_messages parse write_all metadata_len order ts))
        ≢ none
  receive_content_length-thread_messages order ts =
      receive_content_length-first _ (starts_well-thread_messages order ts)
