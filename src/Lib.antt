-- ===== src/Lib.antt =====
-- A model of flexo, a caching proxy for pacman packages, from the bytes of a request to those of its answer.
--
-- A request for a file becomes an order. `JobContext` (flexo/src/lib.rs) answers it from the cache, sends
-- the client to a mirror, or starts a thread that downloads the file. The thread runs
-- `Order::try_until_success`: in each round it chooses a provider (a mirror), takes a connection (a
-- channel) to it and lets it serve the order, until that succeeds or no chance is left. Providers that
-- fail are punished, and pardoned when the order fails everywhere. While the download runs, the
-- client's thread streams the growing file (flexo/src/main.rs).
--
-- The client's thread reads a request (`read_client_header`), takes the name of a custom repository off
-- its path (`custom_provider_from_request`), asks the scheduler, and sends an answer: an error, a redirect,
-- a file from the cache or a growing file (`serve_request`). `serve_client` does so from request to request.
-- The thread of a download is `DownloadJob::serve_from_provider`, with libcurl calling `DownloadState`.
--
-- Parts, with the code that each file models:
--   Guards    flexo/src/provider_guards.rs: ProviderGuards, with an Arc as its value and strong count.
--             Guards/Choice: which guard is chosen; Guards/Usages: the counts of guards in use.
--   Metrics   flexo/src/lib.rs: ProviderMetrics, Provider::punish, Order::pardon, the usage counter of
--             Order::select_provider. Metrics/Laws: how the failure counts move.
--   Job       flexo/src/lib.rs: the traits Job, Order and Provider as a record of types and methods,
--             and JobResult. What depends on the network is a `World`, one for each attempt.
--   Order     flexo/src/lib.rs: Order::select_provider, Job::get_channel, Order::try_until_success.
--             Order/Selection, Order/Attempts, Order/Rounds, Order/Loop, Order/Single, Order/Failures,
--             Order/Custom: its proofs.
--   Context   flexo/src/lib.rs: JobContext with try_schedule, schedule, best_provider, new.
--             Context/Schedule: its answers; Context/Threads: requests and threads as steps.
--             Context/Start: the start of a range in a file. Context/Thread: the thread of an order, with
--             its attempts and its end.
--   Growing   flexo/src/main.rs: serve_growing_file_loop and send_payload.
--             Growing/Termination, Growing/Sendfile: its proofs.
--   Paths     flexo/src/str_path.rs: StrPath; flexo/src/main.rs: permitted_path, valid_path;
--             flexo/src/mirror_flexo.rs: DownloadOrder with its file path. Paths/Inside, Paths/Files:
--             where files lie.
--   Cache     flexo/src/mirror_flexo.rs: the `.cfs` files, persist_and_get_cache_state,
--             inspect_and_initialize_cache. Cache/Sizes, Cache/State: its proofs.
--   Request   flexo/src/mirror_flexo.rs: read_client_header, Request::new, parse_range_header_value;
--             httparse, UTF-8 and reads are parameters. Request/Range, Request/Limits: its proofs.
--   Headers   flexo/src/http_headers.rs. Headers/Declared, Headers/Redirect: what a client reads in them.
--   Serving   flexo/src/main.rs: what is sent to a client (serve_404_header to send_payload_and_flush,
--             ClientFileSource). Serving/Framing, Serving/Complete, Serving/Growth, Serving/Reliable,
--             Serving/Progress: its proofs.
--   Repos     flexo/src/main.rs: custom_provider_from_request, repo_name_from_get_request.
--   Server    flexo/src/main.rs: serve_request with receive_content_length and
--             try_complete_filesize_from_path. Server/Answers, Server/Requests, Server/MetricsTwice: its
--             proofs. Server/FirstMessage: the message that it waits for, from the thread
--             of a download.
--   Client    flexo/src/main.rs: serve_client, handle_client_error. Client/Sessions: its proofs.
--   Download  flexo/src/mirror_flexo.rs: Job for DownloadJob, Order for DownloadOrder, the options for
--             libcurl, whose `perform` is a parameter. Download/Equality: the derived equalities;
--             Download/Preference: the mirror that a cacheable order gets.
--   Config    flexo/src/mirror_config.rs: MirrorConfig and the low speed limits, with parse_si_unit; the
--             regular expression is a parameter. Config/Units: the units that it reads.
--   EnvConfig flexo/src/mirror_config.rs: comma_separated_to_vec, custom_repos_from_env.
--             EnvConfig/CustomRepos: repositories, written and read. EnvConfig/Load: load_config with the
--             settings from environment variables; the TOML parser is a parameter.
--   Scores    flexo/src/mirror_flexo.rs: MirrorResults and the two scores, whose orders fill the interface
--             of Guards. Scores/Preference: the order of the scores.
--   Transfer  flexo/src/mirror_flexo.rs: DownloadState as the handler of a transfer, header and write;
--             httparse, the file and its length are parameters. Transfer/Messages: what the client's
--             thread is told; Transfer/Body: what is written.
--   Mirrors   flexo/src/mirror_fetch.rs: Mirror::filter_predicate, try_num_attempts,
--             fetch_providers_from_json_endpoint; MirrorsAutoConfig::relax of mirror_config.rs.
--             Mirrors/Fetch: the attempts. Mirrors/Latency: measure_latency.
--   Rating    flexo/src/mirror_flexo.rs: rated_providers, rated_providers_retry, CountryFilter; latency
--             tests are a parameter. Rating/Counts, Rating/Distinct, Rating/Allowed, Rating/Genuine, Rating/Retry: its
--             proofs.
--   Selection flexo/src/main.rs: rated_providers, fetch_auto, rated_mirrors.
--             Selection/Start: the mirrors that are chosen automatically.
--   MirrorCache flexo/src/mirror_cache.rs: the file with the results of the last latency test; of main.rs
--             latency_tests_refresh_required. JSON, dates and durations are parameters.
--             MirrorCache/RoundTrip: what is stored and read.
--   Startup   flexo/src/main.rs: main up to its socket, initialize_job_context with the file of MirrorCache.
--             Startup/Initial: a single start; Startup/Restart: one start after another;
--             Startup/Settings: settings from the environment.
--   Purge     flexo/src/main.rs: purge_cache, purge_cfs_files, purge_uncacheable_files. Purge/CfsFiles,
--             Purge/Stale: what is left.
--   Base      Boolean tests, lists, maps, texts and decimal numbers that the parts share.
--   Tests     concrete jobs, worlds and sources, and the theorems applied to them.
--
-- Concurrency. Threads share the guards, the metrics and the idle channels behind locks. Order takes
-- what other threads do in between as arbitrary functions on the shared state (`Others`). Context
-- takes each call under the mutex of the context as a step. Guards takes each choice and each drop of
-- a guard as a step.
--
-- A connection keeps what was sent on it; an answer is a header and the payload behind it. What a request
-- asks of files, clocks and the thread of its download is an `Environment`, which differs from request to
-- request; the theorems say what they rely on (`IsSound`).
--
-- Numbers. Counts of usages and failures are u32 that wrap, as in a release build, and so do the sizes
-- (u64) of Transfer, Headers and Serving. Elsewhere sizes and offsets are natural numbers; only the sum of the content
-- length and the start in `serve_growing_file_loop` could pass 2 ^ 64, and its wrap is not modelled.
-- Durations are natural numbers.
--
-- Fuel. `try_until_success` has 25 units, since round NUM_MAX_ATTEMPTS breaks the loop. A streamed file
-- has a unit for each byte left times one more than the idle polls allowed, and as many again,
-- since each round either receives a byte or uses up an idle poll; `send_payload` has one more than the
-- bytes left, since each call moves one at least. Reading a request has one round more than the bytes that the
-- buffer takes, since each round but the last reads one at least.
--
-- Panics are values: of `unwrap` on no eligible provider, of a poisoned lock, of a duplicate provider. Whether a
-- method of the job panics in a round is a parameter of the thread (`panics` of Context/Thread), since the
-- methods of a `World` return; so is whether libcurl or the handler panics during a transfer (Download).
--
-- Not modelled: log messages, among them the check of TIMEOUT_ALL_RETRIES, which does nothing else, and
-- size_to_human_readable; the release of a channel's resources, which frees memory and files; the
-- directories that are created for files that are served once; the TOML parser with the configuration file;
-- the script flexo_purge_cache.
pub mod Base
pub mod Guards
pub mod Metrics
pub mod Job
pub mod Order
pub mod Context
pub mod Growing
pub mod Paths
pub mod Cache
pub mod Config
pub mod Scores
pub mod Transfer
pub mod Request
pub mod Download
pub mod Headers
pub mod Serving
pub mod Mirrors
pub mod Repos
pub mod Rating
pub mod Server
pub mod Client
pub mod EnvConfig
pub mod Selection
pub mod MirrorCache
pub mod Startup
pub mod Purge
pub mod Tests
