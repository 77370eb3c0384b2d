-- ===== src/Download.antt =====
-- flexo/src/mirror_flexo.rs: the job that downloads a file from a remote mirror. It fills the interface
-- that the scheduler asks for. What libcurl does with its options and the handler is a parameter.
pub mod Preference
pub mod Equality
use flexo.Base.{
  ℕ, ◌≡◌, Bool, true, false, ◌&&◌, ◌*◌, List, [], Option, none, some, ◌∷◌, ◌++◌, ltb, leb, ◌==◌,
  length, if◌then◌else◌,
}
use flexo.Base.Text.{Text, Text-discrete, codes}
use flexo.Metrics.{ProviderIdentifier}
use flexo.Job.{
  Job, JobResult, complete, partial, unavailable, client_error, unexpected_internal_error, Result,
  ok, err,
}
use flexo.Scores.{
  MirrorResults, DynamicScoreCacheableDownload, DynamicScoreUncacheableDownload, cacheable_from,
  uncacheable_from, ord_results, ord_cacheable_score, ord_uncacheable_score,
}
use flexo.Paths.{
  StrPath, Cacheability, non_cacheable, cacheable, DownloadOrder, is_cacheable, retryable, slash,
  filepath,
}
use flexo.Transfer.{DownloadState, u64}
use flexo.Context.{unwrap_or}
use flexo.Config.{LowSpeedConfiguration, configured_by_user, sensible_minimum_fallback}
use flexo.Growing.{IoError}

pub record DownloadProvider : Type 0 where
  pub uri : Text
  pub name : Text
  pub mirror_results : MirrorResults
  pub country_code : Text

pub data DownloadJobError : Type 0 where
  curl_error : ℕ → DownloadJobError
  http_failure_status : ℕ → DownloadJobError

pub data OrderError : Type 0 where
  io_error : IoError → OrderError

-- `DownloadProvider::identifier`
unfoldable pub provider_identifier : DownloadProvider → ProviderIdentifier
provider_identifier p = record { identifier = p.uri }

module _ (order_discrete : Discrete DownloadOrder)
    (provider_discrete : Discrete DownloadProvider) where
  -- `impl Job for DownloadJob` and `impl Order for DownloadOrder`, with the derived equalities.
  abbrev pub download_job : Job
  download_job = record {
    Order = DownloadOrder;
    Provider = DownloadProvider;
    Channel = DownloadState;
    JobError = DownloadJobError;
    OrderError = OrderError;
    InitialScore = MirrorResults;
    ScoreCacheable = DynamicScoreCacheableDownload;
    ScoreUncacheable = DynamicScoreUncacheableDownload;
    ord_initial = ord_results;
    ord_cacheable = ord_cacheable_score;
    ord_uncacheable = ord_uncacheable_score;
    Order-discrete = order_discrete;
    Provider-discrete = provider_discrete;
    identifier = provider_identifier;
    initial_score = λ p. p.mirror_results;
    cacheable_score = cacheable_from;
    uncacheable_score = uncacheable_from;
    is_cacheable = is_cacheable;
    retryable = retryable;
  }

-- `trim_end_matches` and `trim_start_matches` of slashes
unfoldable pub trim_start : Text → Text
trim_start [] = []
trim_start (c ∷ s) = let rest = trim_start s in if c == slash then rest else c ∷ s

abbrev keep_unless_empty : ℕ → Text → Text
keep_unless_empty c [] = if c == slash then [] else c ∷ []
keep_unless_empty c (d ∷ t) = c ∷ d ∷ t

unfoldable pub trim_end : Text → Text
trim_end [] = []
trim_end (c ∷ s) = keep_unless_empty c (trim_end s)

unfoldable pub uri_from_components : Text → Text → Text
uri_from_components prefix suffix = trim_end prefix ++ slash ∷ trim_start suffix

-- `DownloadJob`, as `new_job` makes it.
pub record DownloadJob : Type 0 where
  pub provider : DownloadProvider
  pub uri : Text
  pub order : DownloadOrder

unfoldable pub new_job : DownloadProvider → DownloadOrder → DownloadJob
unfolding uri_from_components
new_job provider order = record {
  provider = provider;
  uri = uri_from_components provider.uri order.requested_path.inner;
  order = order;
}

-- `acquire_resources` and `DownloadState::new`, with what opening the file to append to it gives.
unfoldable pub new_download_state :
    DownloadOrder → Bool → Result Text IoError → Result DownloadState OrderError
new_download_state order last_chance (err e) = err (io_error e)
new_download_state order last_chance (ok content) = ok (record {
  file = content;
  size_written = u64 (length content);
  received_header = [];
  header_success = none;
  last_chance = last_chance;
  is_cacheable = is_cacheable order;
  cfs = none;
  tx = [];
})

-- A channel for reuse gets a new state, and its handle is reset.
unfoldable pub reuse_channel :
    DownloadOrder → Bool → Result Text IoError → DownloadState → Result DownloadState OrderError
unfolding new_download_state
reuse_channel order last_chance opened previous = new_download_state order last_chance opened

-- `DownloadChannel::progress_indicator`
unfoldable pub progress_indicator : DownloadState → Option ℕ
progress_indicator s = if ltb 0 s.size_written then some s.size_written else none

-- The options of the curl handle; durations are in milliseconds.
pub record CurlOptions : Type 0 where
  pub url : Text
  pub connect_timeout : ℕ
  pub low_speed_limit : ℕ
  pub low_speed_time : ℕ
  pub max_recv_speed : Option ℕ
  pub follow_location : Bool
  pub max_redirections : ℕ
  pub resume_from : Option ℕ

pub record DownloadProperties : Type 0 where
  pub connect_timeout : Option ℕ
  pub low_speed_limit : LowSpeedConfiguration
  pub low_speed_time_secs : LowSpeedConfiguration
  pub max_speed_limit : Option ℕ

abbrev pub default_connect_timeout : ℕ
default_connect_timeout = 3000

abbrev pub max_redirections : ℕ
max_redirections = 40

abbrev low_speed : LowSpeedConfiguration → ℕ
low_speed (configured_by_user n) = n
low_speed (sensible_minimum_fallback n) = n

unfoldable pub curl_options : DownloadJob → DownloadProperties → DownloadState → CurlOptions
unfolding progress_indicator
curl_options job properties channel = record {
  url = job.uri;
  connect_timeout = unwrap_or properties.connect_timeout default_connect_timeout;
  low_speed_limit = low_speed properties.low_speed_limit;
  low_speed_time = low_speed properties.low_speed_time_secs * 1000;
  max_recv_speed = properties.max_speed_limit;
  follow_location = true;
  max_redirections = max_redirections;
  resume_from = progress_indicator channel;
}

-- What `perform` returns: the code of the response, or that of an error of curl.
pub data Performed : Type 0 where
  response : ℕ → Performed
  failed : ℕ → Performed

module _ (order_discrete : Discrete DownloadOrder)
    (provider_discrete : Discrete DownloadProvider) where
  abbrev Outcome : Type 0
  Outcome = JobResult (download_job order_discrete provider_discrete)

  -- A completed transfer has a size; `none` is the panic of `unwrap` on an empty file.
  unfoldable pub completed_job : DownloadProvider → DownloadState → Option ℕ → Option Outcome
  completed_job provider channel none = none
  completed_job provider channel (some size) = some (complete channel provider size)

  unfoldable pub on_response : DownloadProvider → DownloadState → ℕ → Option Outcome
  unfolding completed_job progress_indicator
  on_response provider channel code =
      if leb 200 code && ltb code 300
      then completed_job provider channel (progress_indicator channel)
      else (if code == 404
          then some (unavailable channel)
          else some (JobResult.error channel (http_failure_status code)))

  unfoldable pub on_failure : DownloadState → ℕ → Option ℕ → Outcome
  on_failure channel code none = JobResult.error channel (curl_error code)
  on_failure channel code (some size) = partial channel size

  unfoldable pub on_performed : DownloadProvider → DownloadState → Performed → Option Outcome
  unfolding on_response on_failure progress_indicator
  on_performed provider channel (response code) = on_response provider channel code
  on_performed provider channel (failed code) =
      some (on_failure channel code (progress_indicator channel))

  -- `serve_from_provider`; `perform` runs the transfer, which calls the handler; `none` is a panic, of the
  -- handler or of what follows the transfer.
  unfoldable pub serve_from_provider :
      (CurlOptions → DownloadState → Option (DownloadState × Performed))
      → DownloadJob
      → DownloadProperties
      → DownloadState
      → Option Outcome
  unfolding curl_options on_performed
  serve_from_provider perform job properties channel =
      elim (perform (curl_options job properties channel) channel) [
        | none ↦ none
        | some after ↦ on_performed job.provider after.0 after.1
      ]

  -- `DownloadJob::handle_error`
  unfoldable pub handle_error : OrderError → Outcome
  handle_error (io_error IoError.not_found) = client_error
  handle_error (io_error IoError.timed_out) = unexpected_internal_error
  handle_error (io_error IoError.would_block) = unexpected_internal_error
  handle_error (io_error IoError.broken_pipe) = unexpected_internal_error
  handle_error (io_error IoError.connection_reset) = unexpected_internal_error
  handle_error (io_error IoError.other_error) = unexpected_internal_error
