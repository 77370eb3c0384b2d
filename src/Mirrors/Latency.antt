-- ===== src/Mirrors/Latency.antt =====
-- flexo/src/mirror_fetch.rs: the latency test of a mirror. What libcurl makes of its options and of the
-- function that looks at each header is a parameter; times are in milliseconds.
use flexo.Base.{ℕ, ◌*◌, Bool, true, not, [], ◌∷◌, ◌++◌, Option, none, some}
use flexo.Base.Text.{Text, codes}
use flexo.Job.{Result, ok, err}
use flexo.Scores.{MirrorResults}
use flexo.Transfer.{eq_ignore_ascii_case}

pub data HttpVersion : Type 0 where
  v11 : HttpVersion

pub record LatencyOptions : Type 0 where
  pub url : Text
  pub nobody : Bool
  pub follow_location : Bool
  pub dns_cache_timeout : ℕ
  pub timeout : ℕ
  pub http_version : HttpVersion
  pub fail_on_error : Bool

-- Two bytes end the line.
abbrev pub cloudflare : Text
cloudflare = codes "server: cloudflare" ++ 13 ∷ 10 ∷ []

-- The header function: whether the test goes on.
unfoldable pub accepts_header : Text → Bool
unfolding eq_ignore_ascii_case
accepts_header header = not (eq_ignore_ascii_case header cloudflare)

unfoldable pub latency_options : Text → ℕ → LatencyOptions
latency_options url timeout = record {
  url = url ++ codes "core/os/x86_64/core.db";
  nobody = true;
  follow_location = true;
  dns_cache_timeout = 3600 * 24 * 1000;
  timeout = timeout;
  http_version = v11;
  fail_on_error = true;
}

-- `perform`, with the times that are read after it.
unfoldable pub measure_latency :
    {E : Type 0}
    → (LatencyOptions → (Text → Bool) → Result MirrorResults E)
    → Text
    → ℕ
    → Result MirrorResults E
unfolding latency_options accepts_header
measure_latency perform url timeout = perform (latency_options url timeout) accepts_header

-- A mirror whose test fails is skipped.
unfoldable pub unless_failed : {A E : Type 0} → Result A E → Option A
unless_failed (ok a) = some a
unless_failed (err e) = none
