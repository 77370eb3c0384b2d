-- ===== src/Server/Answers.antt =====
-- How a request is answered, branch by branch.
use flexo.Base.{
  ℕ, zero, suc, ◌+◌, ◌^◌, ◌≤◌, ◌<◌, ◌≡◌, refl, ap, ◌∙◌, Bool, true, false, Option, none, some,
  arith, Option-cases, inl, inr, if◌then◌else◌,
}
use flexo.Base.Text.{Text, codes}
use flexo.Job.{CachedItem, FlexoProgress, job_size, progress, completed, Result, ok, err}
use flexo.Paths.{DownloadOrder, is_cacheable, filepath}
use flexo.Growing.{IoError, remaining_content_length}
use flexo.Growing.Sendfile.{MovesBytes}
use flexo.Request.{FileAttrError}
use flexo.Context.{unwrap_or}
use flexo.Context.Start.{Covers}
use flexo.Headers.{
  PayloadOrigin, cache, remote_mirror, no_payload, reply_header_not_found, reply_header_bad_request,
  reply_header_internal_server_error, reply_header,
}
use flexo.Headers.Declared.{declared_length, is_one_line, IsStart, reply_header-declared}
use flexo.Serving.{
  Connection, Io, write_all, serve_404_header, serve_400_header, serve_500_header, start_or_zero,
}
use flexo.Serving.Framing.{IsAnswered, write_all-IsAnswered}
use flexo.Serving.Complete.{serve_from_complete_file-IsAnswered}
use flexo.Serving.Growth.{serve_from_growing_file-IsAnswered}
use flexo.Server.{
  Environment, Handled, answered, ContentLengthError, ContentLengthResult, content_length,
  already_cached, unavailable, order_error, transmission_error, receive_content_length, try_sizes,
  serve_growing, serve_with_size, serve_complete, serve_in_progress, serve_scheduled,
  RecvTimeoutError,
}

pub answered-eq-ok :
    {A : Type 0} (origin p : PayloadOrigin) (m : Io A) (c' : Connection)
    → answered origin m ≡ (ok p, c')
    → (a : A) × (m ≡ (ok a, c'))
unfolding answered
answered-eq-ok origin p (ok a, c) c' h =
    (a, ap (λ (d : Connection). (ok a, d)) (ap (λ (m : Handled). m.1) h))
answered-eq-ok origin p (err e, c) c' h = cc

remaining_reaches :
    (n size : ℕ) (r : Option ℕ) → size ≤ n → size ≤ remaining_content_length n r + start_or_zero r
unfolding remaining_content_length
remaining_reaches n size none le = omega arith
remaining_reaches n size (some r) le = omega arith

remaining_small : (n : ℕ) (r : Option ℕ) → n < 2 ^ 64 → remaining_content_length n r < 2 ^ 64
unfolding remaining_content_length
remaining_small n none small = omega arith
remaining_small n (some r) small = omega arith

module _ (env : Environment) (order : DownloadOrder) (resume : Option ℕ) where
  abbrev pub path : Text
  path = filepath env.cache_directory order

  -- A complete size: no poll of the file finds it longer.
  abbrev pub IsComplete : ℕ → Type 0
  IsComplete n =
      (n < 2 ^ 64)
      × ((sizes : ℕ → Result ℕ IoError) (i size : ℕ)
          → env.open_file path ≡ ok sizes
          → sizes i ≡ ok size
          → size ≤ n)

  -- What the answers rely on: the date is one line; `sendfile64` moves a byte at least and no more than
  -- asked for; the start has 64 bits; announced and recorded sizes are complete sizes; a file has a size of
  -- 64 bits and is not shorter than the state of the cache says.
  pub record IsSound : Type 0 where
    pub one_line : is_one_line env.network.now ≡ true
    pub moves : MovesBytes env.network.sendfile
    pub starts : IsStart resume
    pub announced : (n : ℕ) → env.first_message order ≡ ok (job_size n) → IsComplete n
    pub recorded : (i n : ℕ) → env.complete_size path i ≡ some n → IsComplete n
    pub stored :
        (sizes : ℕ → Result ℕ IoError) (size : ℕ)
        → env.open_file path ≡ ok sizes
        → sizes 0 ≡ ok size
        → (size < 2 ^ 64)
          × ((item : CachedItem) → env.cache_state order ≡ some item → item.cached_size ≤ size)

  -- What is handled without an error is answered.
  abbrev pub AnsweredBy : Connection → Handled → Type 0
  AnsweredBy c h = (p : PayloadOrigin) (c' : Connection) → h ≡ (ok p, c') → IsAnswered c c'

  pub header-AnsweredBy :
      (origin : PayloadOrigin) (header : Text) (c : Connection)
      → declared_length header ≡ some 0
      → AnsweredBy c (answered origin (write_all env.network header c))
  header-AnsweredBy origin header c empty p c' h =
      let (u, e) = answered-eq-ok origin p _ c' h in
      write_all-IsAnswered env.network header c c' u empty e

  serve_growing-AnsweredBy :
      (opened : Result (ℕ → Result ℕ IoError) IoError) (n : ℕ) (c : Connection)
      → env.open_file path ≡ opened
      → IsSound
      → IsComplete n
      → AnsweredBy c (serve_growing env opened n resume c)
  unfolding serve_growing
  serve_growing-AnsweredBy (err e) n c opens sound complete p c' h = cc
  serve_growing-AnsweredBy (ok sizes) n c opens sound (small, within) p c' h =
      let (u, e) = answered-eq-ok remote_mirror p _ c' h in
      serve_from_growing_file-IsAnswered env.network sizes (remaining_content_length n resume)
        resume c c' sound.one_line sound.moves
        (λ i size e'. remaining_reaches n size resume (within sizes i size opens e'))
        (remaining_small n resume small) sound.starts e

  serve_with_size-AnsweredBy :
      (measured : Result ℕ IoError) (c : Connection)
      → IsSound
      → ((size : ℕ) → measured ≡ ok size → (start_or_zero resume ≤ size) × (size < 2 ^ 64))
      → AnsweredBy c (serve_with_size env measured resume c)
  unfolding serve_with_size
  serve_with_size-AnsweredBy (err e) c sound fits p c' h = cc
  serve_with_size-AnsweredBy (ok size) c sound fits p c' h =
      let (n, e) = answered-eq-ok cache p _ c' h in
      let (reached, small) = fits size refl in
      serve_from_complete_file-IsAnswered env.network size resume n c c' sound.one_line sound.moves
        reached small e

  -- The state of the cache that the scheduler sees.
  abbrev pub seen : Option CachedItem
  seen = if is_cacheable order then env.cache_state order else none

  seen_stored :
      (can : Bool) (size : ℕ)
      → ((item : CachedItem) → env.cache_state order ≡ some item → item.cached_size ≤ size)
      → (item : CachedItem) → (if can then env.cache_state order else none) ≡ some item
      → item.cached_size ≤ size
  seen_stored true size h item e = h item e
  seen_stored false size h item e = cc

  start_is : (r : Option ℕ) → unwrap_or r 0 ≡ start_or_zero r
  start_is none = refl
  start_is (some r) = refl

  pub serve_complete-AnsweredBy :
      (opened : Result (ℕ → Result ℕ IoError) IoError) (c : Connection)
      → env.open_file path ≡ opened
      → IsSound
      → Covers seen (unwrap_or resume 0)
      → AnsweredBy c (serve_complete env opened resume c)
  unfolding serve_complete
  serve_complete-AnsweredBy (err e) c opens sound covers p c' h = cc
  serve_complete-AnsweredBy (ok sizes) c opens sound covers p c' h =
      serve_with_size-AnsweredBy (sizes 0) c sound
        (λ size measured.
          let (small, known) = sound.stored sizes size opens measured in
          let reached = covers size (seen_stored (is_cacheable order) size known) in
          (omega (arith, start_is resume, reached), small))
        p c' h

  pub declared_nothing :
      (status : Text)
      → is_one_line status ≡ true
      → is_one_line env.network.now ≡ true
      → declared_length (reply_header status 0 none no_payload env.network.now) ≡ some 0
  declared_nothing status one now =
      (reply_header-declared status 0 none no_payload env.network.now one now (omega arith) tt).0

  pub serve_scheduled-AnsweredBy :
      (received : Result ContentLengthResult ContentLengthError) (c : Connection)
      → IsSound
      → ((n : ℕ) → received ≡ ok (content_length n) → IsComplete n)
      → Covers seen (unwrap_or resume 0)
      → AnsweredBy c (serve_scheduled env received path resume c)
  unfolding serve_scheduled serve_404_header serve_400_header serve_500_header
      reply_header_not_found reply_header_bad_request reply_header_internal_server_error
  serve_scheduled-AnsweredBy (ok (content_length n)) c sound sizes covers =
      serve_growing-AnsweredBy (env.open_file path) n c refl sound (sizes n refl)
  serve_scheduled-AnsweredBy (ok already_cached) c sound sizes covers =
      serve_complete-AnsweredBy (env.open_file path) c refl sound covers
  serve_scheduled-AnsweredBy (err unavailable) c sound sizes covers =
      header-AnsweredBy no_payload _ c
        (declared_nothing (codes "404 Not Found") refl sound.one_line)
  serve_scheduled-AnsweredBy (err order_error) c sound sizes covers =
      header-AnsweredBy no_payload _ c
        (declared_nothing (codes "400 Bad Request") refl sound.one_line)
  serve_scheduled-AnsweredBy (err (transmission_error e)) c sound sizes covers =
      header-AnsweredBy no_payload _ c
        (declared_nothing (codes "500 Internal Server Error") refl sound.one_line)

  pub received_size :
      (m : Result FlexoProgress RecvTimeoutError)
      (received : Result ContentLengthResult ContentLengthError) (n : ℕ)
      → receive_content_length m ≡ some received
      → received ≡ ok (content_length n)
      → m ≡ ok (job_size n)
  unfolding receive_content_length
  received_size (ok (job_size k)) received n h e = ap (λ j. ok (job_size j)) (cc (h, e))
  received_size (ok completed) received n h e = cc
  received_size (ok FlexoProgress.unavailable) received n h e = cc
  received_size (ok FlexoProgress.order_error) received n h e = cc
  received_size (ok (progress k)) received n h e = cc
  received_size (err m) received n h e = cc

  pub try_sizes-eq-ok :
      (sizes : ℕ → Option ℕ) (i left n : ℕ)
      → try_sizes sizes i left ≡ ok n
      → (j : ℕ) × (sizes j ≡ some n)
  unfolding try_sizes
  try_sizes-eq-ok sizes i zero n h = cc
  try_sizes-eq-ok sizes i (suc left) n h = elim (Option-cases (sizes i)) [
    | inl none_yet ↦ try_sizes-eq-ok sizes (i + 1) left n (rw (none_yet, try_sizes) at h)
    | inr (v, e) ↦ (i, e ∙ ap some (cc (rw (e, try_sizes) at h)))
  ]

  pub serve_in_progress-AnsweredBy :
      (size : Result ℕ FileAttrError) (c : Connection)
      → IsSound
      → ((n : ℕ) → size ≡ ok n → IsComplete n)
      → AnsweredBy c (serve_in_progress env size path resume c)
  unfolding serve_in_progress
  serve_in_progress-AnsweredBy (err e) c sound sizes p c' h = cc
  serve_in_progress-AnsweredBy (ok n) c sound sizes p c' h =
      serve_growing-AnsweredBy (env.open_file path) n c refl sound (sizes n refl) p c' h
