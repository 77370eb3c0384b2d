-- ===== src/Server.antt =====
-- flexo/src/main.rs: the requests of a client. A request is served with the job context locked where the
-- source locks it; the environment holds what the code asks of the network, of the files and of the
-- thread that downloads. A panic is `none`.
pub mod Answers
pub mod Requests
pub mod MetricsTwice
pub mod FirstMessage
use flexo.Base.{
  ℕ, zero, suc, ◌+◌, Bool, true, false, not, List, [], ◌∷◌, ◌++◌, Option, none, some, if◌then◌else◌,
}
use flexo.Base.Text.{Text, codes, text_eq}
use flexo.Metrics.{Metrics}
use flexo.Job.{CachedItem, FlexoProgress, job_size, progress, completed, Result, ok, err}
use flexo.Paths.{
  StrPath, from_path_buf, Component, root_dir, cur_dir, parent_dir, normal, components, join,
  permitted_path, valid_path, DownloadOrder, new_order, filepath,
}
use flexo.Scores.{MirrorResults}
use flexo.Growing.{IoError, connection_reset, remaining_content_length}
use flexo.Request.{
  ClientStatus, ClientError, io_error, file_attr_error, FileAttrError, timeout_error,
  unsupported_http_method, invalid_header, other, buffer_size_exceeded, Request, RequestMethod, get,
  post, ClientResponse, request, socket_closed,
}
use flexo.Download.{DownloadProvider, uri_from_components}
use flexo.Config.{CustomRepo}
use flexo.Repos.{custom_provider_from_request}
use flexo.Download.Equality.{mirror_job}
use flexo.Context.{
  JobContext, ScheduleOutcome, already_in_progress, scheduled, cached, uncacheable, Scheduling,
  panicked, outcome, try_schedule, reset_provider_metrics,
}
use flexo.Headers.{PayloadOrigin, cache, remote_mirror, no_payload}
use flexo.Serving.{
  Connection, Network, Io, and_then, write_all, serve_404_header, serve_400_header,
  serve_500_header, serve_403_header, serve_200_ok_empty, serve_200_ok_body, serve_via_redirect,
  serve_from_complete_file, serve_from_growing_file,
}

pub data RecvTimeoutError : Type 0 where
  timeout disconnected : RecvTimeoutError

pub data ContentLengthError : Type 0 where
  transmission_error : RecvTimeoutError → ContentLengthError
  unavailable order_error : ContentLengthError

pub data ContentLengthResult : Type 0 where
  content_length : ℕ → ContentLengthResult
  already_cached : ContentLengthResult

-- What the first `recv_timeout` answers decides; `none` is the panic on an unexpected message.
unfoldable pub receive_content_length :
    Result FlexoProgress RecvTimeoutError → Option (Result ContentLengthResult ContentLengthError)
receive_content_length (ok (job_size n)) = some (ok (content_length n))
receive_content_length (ok completed) = some (ok already_cached)
receive_content_length (ok FlexoProgress.unavailable) = some (err unavailable)
receive_content_length (ok FlexoProgress.order_error) = some (err order_error)
receive_content_length (ok (progress n)) = none
receive_content_length (err e) = some (err (transmission_error e))

-- `try_complete_filesize_from_path`, with the size in the `.cfs` file at the n-th attempt.
unfoldable pub try_sizes : (ℕ → Option ℕ) → ℕ → ℕ → Result ℕ FileAttrError
try_sizes size_at n zero = err timeout_error
try_sizes size_at n (suc left) = elim (size_at n) [
  | some v ↦ ok v
  | none ↦ try_sizes size_at (n + 1) left
]

unfoldable pub try_complete_filesize_from_path : (ℕ → Option ℕ) → Result ℕ FileAttrError
unfolding try_sizes
try_complete_filesize_from_path size_at = try_sizes size_at 0 2000

-- What is asked of the outside while one request is served: the `Uuid`, the state of a file in the
-- cache, the first message of the download, the attempts at a `.cfs` file, opened files with the sizes
-- that they have from poll to poll, and the metrics as JSON.
pub record Environment : Type 0 where
  pub network : Network
  pub cache_directory : Text
  pub custom_repos : List CustomRepo
  pub uuid : Text
  pub cache_state : DownloadOrder → Option CachedItem
  pub first_message : DownloadOrder → Result FlexoProgress RecvTimeoutError
  pub complete_size : Text → ℕ → Option ℕ
  pub open_file : Text → Result (ℕ → Result ℕ IoError) IoError
  pub to_json : Metrics → Text

abbrev pub Context : Type 0
Context = JobContext mirror_job

abbrev pub Handled : Type 0
Handled = Result PayloadOrigin ClientError × Connection

-- `?` with the conversion of an I/O error, and then the origin.
unfoldable pub answered : {A : Type 0} → PayloadOrigin → Io A → Handled
answered origin (ok a, c) = (ok origin, c)
answered origin (err e, c) = (err (io_error e), c)

module _ (env : Environment) where
  abbrev pub net : Network
  net = env.network

  unfoldable pub serve_growing :
      Result (ℕ → Result ℕ IoError) IoError → ℕ → Option ℕ → Connection → Handled
  unfolding answered
  serve_growing (err e) complete_filesize resume_from c = (err (io_error e), c)
  serve_growing (ok sizes) complete_filesize resume_from c = answered remote_mirror (
      serve_from_growing_file net sizes (remaining_content_length complete_filesize resume_from)
        resume_from c)

  unfoldable pub serve_with_size : Result ℕ IoError → Option ℕ → Connection → Handled
  unfolding answered
  serve_with_size (err e) resume_from c = (err (io_error e), c)
  serve_with_size (ok filesize) resume_from c =
      answered cache (serve_from_complete_file net filesize resume_from c)

  -- A complete file has the size that it has at once.
  unfoldable pub serve_complete :
      Result (ℕ → Result ℕ IoError) IoError → Option ℕ → Connection → Handled
  unfolding serve_with_size
  serve_complete (err e) resume_from c = (err (io_error e), c)
  serve_complete (ok sizes) resume_from c = serve_with_size (sizes 0) resume_from c

  -- an order that another client has asked for
  unfoldable pub serve_in_progress : Result ℕ FileAttrError → Text → Option ℕ → Connection → Handled
  unfolding serve_growing
  serve_in_progress (err e) path resume_from c = (err (file_attr_error e), c)
  serve_in_progress (ok complete_filesize) path resume_from c =
      serve_growing (env.open_file path) complete_filesize resume_from c

  -- an order that this request has started
  unfoldable pub serve_scheduled :
      Result ContentLengthResult ContentLengthError → Text → Option ℕ → Connection → Handled
  unfolding serve_growing serve_complete answered
  serve_scheduled (ok (content_length n)) path resume_from c =
      serve_growing (env.open_file path) n resume_from c
  serve_scheduled (ok already_cached) path resume_from c =
      serve_complete (env.open_file path) resume_from c
  serve_scheduled (err unavailable) path resume_from c =
      answered no_payload (serve_404_header net c)
  serve_scheduled (err order_error) path resume_from c =
      answered no_payload (serve_400_header net c)
  serve_scheduled (err (transmission_error e)) path resume_from c =
      answered no_payload (serve_500_header net c)

  unfoldable pub receive_and_serve :
      Option (Result ContentLengthResult ContentLengthError)
      → Text
      → Option ℕ
      → Connection
      → Option Handled
  unfolding serve_scheduled
  receive_and_serve none path resume_from c = none
  receive_and_serve (some received) path resume_from c =
      some (serve_scheduled received path resume_from c)

  unfoldable pub serve_outcome :
      ScheduleOutcome mirror_job → DownloadOrder → Option ℕ → Connection → Option Handled
  unfolding serve_in_progress receive_and_serve serve_complete answered
  serve_outcome already_in_progress order resume_from c =
      let path = filepath env.cache_directory order in
      some (
        serve_in_progress (try_complete_filesize_from_path (env.complete_size path)) path
          resume_from c)
  serve_outcome scheduled order resume_from c =
      receive_and_serve (receive_content_length (env.first_message order))
        (filepath env.cache_directory order) resume_from c
  serve_outcome cached order resume_from c =
      some (serve_complete (env.open_file (filepath env.cache_directory order)) resume_from c)
  serve_outcome (uncacheable provider) order resume_from c = some (
      answered no_payload
        (serve_via_redirect net (uri_from_components provider.uri order.requested_path.inner) c))

  -- The answer and the context, unless the thread panics.
  unfoldable pub with_context : Option Handled → Context → Option (Handled × Context)
  with_context none ctx = none
  with_context (some handled) ctx = some (handled, ctx)

  unfoldable pub serve_scheduling :
      Scheduling mirror_job → DownloadOrder → Option ℕ → Connection → Option (Handled × Context)
  unfolding with_context serve_outcome
  serve_scheduling panicked order resume_from c = none
  serve_scheduling (outcome o ctx) order resume_from c =
      with_context (serve_outcome o order resume_from c) ctx

  -- The body is written once more behind the answer.
  unfoldable pub serve_metrics : Text → Connection → Io Unit
  serve_metrics serialized c =
      and_then (serve_200_ok_body net serialized c) λ _ c'. write_all net serialized c'

  unfoldable pub serve_file :
      Option DownloadProvider → Request → Context → Connection → Option (Handled × Context)
  unfolding serve_scheduling
  serve_file custom_provider r ctx c =
      let order = new_order env.uuid r.path in
      serve_scheduling
        (try_schedule mirror_job env.cache_state ctx order custom_provider r.resume_from) order
        r.resume_from c

  abbrev pub is_post : RequestMethod → Bool
  is_post get = false
  is_post post = true

  -- `serve_request`, with the provider and the request that stand for the client's
  unfoldable pub serve_path :
      Option DownloadProvider → Request → Context → Connection → Option (Handled × Context)
  unfolding answered serve_metrics serve_file
  serve_path custom_provider r ctx c =
      if not (permitted_path r.path.inner)
      then some (answered no_payload (serve_403_header net c), ctx)
      else (if not (valid_path r.path.inner)
          then some (answered no_payload (serve_400_header net c), ctx)
          else (if text_eq r.path.inner (codes "status")
              then some (answered no_payload (serve_200_ok_empty net c), ctx)
              else (if text_eq r.path.inner (codes "metrics")
                  then some (
                    answered no_payload (serve_metrics (env.to_json ctx.shared.provider_metrics) c),
                    ctx,
                  )
                  else (if (if text_eq r.path.inner (codes "reset-metrics")
                        then is_post r.method
                        else false)
                      then some (
                        answered no_payload (serve_200_ok_empty net c),
                        reset_provider_metrics mirror_job ctx,
                      )
                      else serve_file custom_provider r ctx c))))

  unfoldable pub serve_request : Request → Context → Connection → Option (Handled × Context)
  unfolding serve_path
  serve_request get_request ctx c =
      let found = custom_provider_from_request get_request env.custom_repos in
      serve_path found.0 found.1 ctx c
