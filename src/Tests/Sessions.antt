-- ===== src/Tests/Sessions.antt =====
-- The theorems on whole requests and connections, applied where their hypotheses hold.
use native.Mathlib.Decide.{ℕ_discrete}
use flexo.Base.{
  ℕ, ◌≡◌, ◌↔◌, refl, ap, true, false, List, [], ◌∷◌, Option, none, some, arith, contains, ◌∙◌,
}
use flexo.Base.Text.{codes, Text-discrete, text_eq, ends_with, split}
use flexo.Job.{CachedItem, Result, ok, err}
use flexo.Paths.{
  new_order, DownloadOrder, is_cacheable, is_cacheable_path, components, relative_body,
  component_of, body, is_absolute, last_component, permitted_path, valid_path,
}
use flexo.Growing.{IoError, send_payload, send_loop}
use flexo.Request.{Request, get, ClientError, buffer_size_exceeded, ClientResponse, request}
use flexo.Download.Equality.{mirror_job}
use flexo.Context.{cached, outcome, try_schedule, cache_decision}
use flexo.Context.Start.{IsReached, try_schedule-IsReached}
use flexo.Headers.{cache, no_payload, reply_header_success}
use flexo.Serving.{
  Connection, text, file_part, file_header, write_all, serve_from_complete_file,
  send_payload_and_flush, after_payload, set_nodelay, serve_200_ok_body,
}
use flexo.Serving.Framing.{IsAnswered}
use flexo.Repos.{custom_provider_from_request, repo_name_from_get_request, repo_and_path}
use flexo.Server.{
  Environment, Context, timeout, serve_request, serve_path, serve_file, serve_scheduling,
  serve_outcome, with_context, serve_complete, serve_with_size, answered, serve_metrics,
}
use flexo.Server.Answers.{IsSound}
use flexo.Server.Requests.{serve_request-IsAnswered}
use flexo.Server.MetricsTwice.{IsDoubled, metrics_request, serve_request-metrics_twice}
use flexo.Client.{waiting, serve_client, handle_client_error}
use flexo.Client.Sessions.{
  Answers, IsBadRequest, serve_client-Answers, handle_client_error-shut_iff,
}
use flexo.Tests.{good_network, unused, three_bytes-MovesBytes}

-- A cache that has every file, of ten bytes.
abbrev full_cache : Environment
full_cache = record {
  network = good_network;
  cache_directory = codes "/var";
  custom_repos = [];
  uuid = codes "u";
  cache_state = λ order. some (record { complete_size = some 10; cached_size = 10 });
  first_message = λ order. err timeout;
  complete_size = λ path n. none;
  open_file = λ path. ok (λ i. ok 10);
  to_json = λ metrics. codes "{}";
}

abbrev no_mirrors : Context
no_mirrors = record {
  shared = record { guards = []; provider_metrics = []; channels = [] };
  orders_in_progress = [];
  panic_monitor = [];
}

abbrev range_request : Request
range_request = record {
  resume_from = some 3;
  path = record { inner = codes "core/a.pkg" };
  method = get;
}

abbrev package_order : DownloadOrder
package_order = new_order full_cache.uuid (custom_provider_from_request range_request []).1.path

abbrev number_of : Result ℕ IoError → ℕ
number_of (ok n) = n
number_of (err e) = 0

abbrev number_at : ℕ → Result (ℕ → Result ℕ IoError) IoError → ℕ
number_at i (ok sizes) = number_of (sizes i)
number_at i (err e) = 0

abbrev size_of : Option CachedItem → ℕ
size_of (some item) = item.cached_size
size_of none = 0

full_cache-IsSound :
    IsSound full_cache package_order (custom_provider_from_request range_request []).1.resume_from
unfolding custom_provider_from_request repo_name_from_get_request repo_and_path components
    relative_body component_of body is_absolute split text_eq Text-discrete
full_cache-IsSound = record {
  one_line = refl;
  moves = three_bytes-MovesBytes;
  starts = omega arith;
  announced = λ n h. cc;
  recorded = λ i n h. cc;
  stored = λ sizes size opened first.
      let same : 10 ≡ size = ap (number_at 0) opened ∙ ap number_of first in
      (
        omega (arith, same),
        λ item e. let known : 10 ≡ item.cached_size = ap size_of e in omega (arith, same, known),
      );
}

abbrev after_hit : Connection
after_hit = record {
  sent = text (file_header good_network 7 (some 3) cache) ∷ file_part 3 10 ∷ [];
  is_shut = false;
}

hit_served :
    serve_request full_cache range_request no_mirrors unused
    ≡ some ((ok cache, after_hit), no_mirrors)
unfolding serve_request serve_path custom_provider_from_request repo_name_from_get_request
    repo_and_path permitted_path valid_path components relative_body component_of body is_absolute
    last_component split text_eq Text-discrete serve_file try_schedule cache_decision new_order
    is_cacheable is_cacheable_path ends_with serve_scheduling with_context serve_outcome
    serve_complete serve_with_size answered serve_from_complete_file write_all
    send_payload_and_flush after_payload set_nodelay send_payload send_loop contains
hit_served = refl

range_not_metrics :
    text_eq
      (custom_provider_from_request range_request full_cache.custom_repos).1.path.inner
      (codes "metrics")
    ≡ false
unfolding custom_provider_from_request repo_name_from_get_request repo_and_path components
    relative_body component_of body is_absolute split text_eq Text-discrete ℕ_discrete
range_not_metrics = refl

serve_request-IsAnswered_example : IsAnswered unused after_hit
serve_request-IsAnswered_example =
    serve_request-IsAnswered full_cache range_request no_mirrors no_mirrors unused after_hit cache
      full_cache-IsSound range_not_metrics hit_served

abbrev package_only : DownloadOrder
package_only = new_order (codes "u") range_request.path

hit_answer :
    try_schedule mirror_job full_cache.cache_state no_mirrors package_only none (some 3)
    ≡ outcome cached no_mirrors
unfolding try_schedule cache_decision new_order is_cacheable is_cacheable_path ends_with contains
hit_answer = refl

try_schedule-IsReached_example :
    IsReached mirror_job full_cache.cache_state no_mirrors package_only none (some 3) cached
try_schedule-IsReached_example =
    try_schedule-IsReached mirror_job full_cache.cache_state no_mirrors package_only none (some 3)
      cached no_mirrors hit_answer

abbrev after_metrics : Connection
after_metrics = record {
  sent =
      text (reply_header_success 2 no_payload (codes "today"))
      ∷ text (codes "{}")
      ∷ text (codes "{}")
      ∷ [];
  is_shut = false;
}

metrics_answered :
    serve_request full_cache (metrics_request none) no_mirrors unused
    ≡ some ((ok no_payload, after_metrics), no_mirrors)
unfolding serve_request serve_path custom_provider_from_request repo_name_from_get_request
    repo_and_path permitted_path valid_path components relative_body component_of body is_absolute
    last_component split text_eq Text-discrete answered serve_metrics serve_200_ok_body write_all
metrics_answered = refl

serve_request-metrics_twice_example :
    IsDoubled (full_cache.to_json no_mirrors.shared.provider_metrics) unused after_metrics
    × (¬ IsAnswered unused after_metrics)
serve_request-metrics_twice_example =
    serve_request-metrics_twice full_cache none no_mirrors no_mirrors unused after_metrics
      no_payload refl (omega arith) (omega arith) metrics_answered

abbrev one_request : List (Result ClientResponse ClientError)
one_request = ok (request range_request) ∷ []

still_waiting :
    serve_client (λ n. full_cache) (λ n ctx. ctx) 0 one_request false no_mirrors unused
    ≡ waiting false no_mirrors after_hit
unfolding serve_client
still_waiting = rw (hit_served, serve_client) refl

serve_client-Answers_example : Answers 1 unused after_hit
serve_client-Answers_example =
    serve_client-Answers (λ n. full_cache) (λ n ctx. ctx) 0 one_request false false no_mirrors
      no_mirrors unused after_hit ((full_cache-IsSound, range_not_metrics), tt) still_waiting

handle_client_error-shut_iff_example :
    ((handle_client_error full_cache buffer_size_exceeded unused).1.is_shut ≡ true)
    ↔ (¬ IsBadRequest buffer_size_exceeded)
handle_client_error-shut_iff_example =
    handle_client_error-shut_iff full_cache buffer_size_exceeded unused refl
