-- ===== src/Tests.antt =====
-- Concrete jobs, worlds and sources, and the theorems applied to them.
pub mod Witnesses
pub mod Requests
pub mod Answers
pub mod Preference
pub mod Sessions
pub mod Mirrors
pub mod Startup
pub mod Purging
pub mod Threads
use native.Mathlib.Decide.{ℕ_discrete}
use flexo.Base.{
  ℕ, zero, suc, ◌+◌, ◌≡◌, refl, Bool, true, false, List, [], ◌++◌, length, ◌∷◌, Option, none, some,
  arith, leb, ltb, if◌then◌else◌,
}
use Prim.Native.Nat.{min}
use flexo.Base.Text.{Text, codes}
use flexo.Guards.{
  Ord, ProviderChoice, include, exclude, ProviderGuard, Selected, new_guards, get_provider_guard,
}
use flexo.Metrics.{ProviderIdentifier, ProviderIdentifier-discrete}
use flexo.Job.{
  Job, JobResult, complete, partial, World, Result, ok, err, DynamicProviderMetrics, CachedItem,
}
use flexo.Order.{Shared, Others}
use flexo.Scores.{DynamicScoreCacheableDownload, MirrorResults}
use flexo.Transfer.{DownloadState, Status, complete}
use flexo.Growing.{GrowingFileSource, IoError}
use flexo.Growing.Sendfile.{MovesBytes}
use flexo.Serving.{Connection, Network}

pub leb_total_lem : (a b : ℕ) → leb a b ≡ false → leb b a ≡ true
leb_total_lem a b h = ground arith

pub leb_trans_lem : (a b c : ℕ) → leb a b ≡ true → leb b c ≡ true → leb a c ≡ true
leb_trans_lem a b c h k = ground arith

abbrev pub ord_number : Ord ℕ
ord_number = record { le = leb; le_total = leb_total_lem; le_trans = leb_trans_lem }

-- Providers that are their identifiers, and orders, channels and scores that are numbers.
abbrev pub mirror_a : ProviderIdentifier
mirror_a = record { identifier = codes "a" }

abbrev pub mirror_b : ProviderIdentifier
mirror_b = record { identifier = codes "b" }

abbrev pub mirror_c : ProviderIdentifier
mirror_c = record { identifier = codes "c" }

abbrev pub number_job : Job
number_job = record {
  Order = ℕ;
  Provider = ProviderIdentifier;
  Channel = ℕ;
  JobError = ℕ;
  OrderError = ℕ;
  InitialScore = ℕ;
  ScoreCacheable = ℕ;
  ScoreUncacheable = ℕ;
  ord_initial = ord_number;
  ord_cacheable = ord_number;
  ord_uncacheable = ord_number;
  Order-discrete = ℕ_discrete;
  Provider-discrete = ProviderIdentifier-discrete;
  identifier = λ p. p;
  initial_score = λ p. 0;
  cacheable_score = λ m. m.num_failures;
  uncacheable_score = λ m. m.num_current_usages;
  is_cacheable = λ o. ltb 1 o;
  retryable = λ o. true;
}

-- A world in which every transfer breaks off after five bytes.
abbrev pub broken_world : ℕ → World number_job
broken_world n = record {
  new_channel = λ o last. ok 7;
  reuse_channel = λ o last c. ok c;
  serve_from_provider = λ p o c. partial c 5;
  handle_error = λ e. JobResult.error 7 e;
}

-- no other thread does anything
abbrev pub alone : Others number_job
alone = record { before_select = λ n s. s; during_job = λ n s. s; before_pardon = λ s. s }

abbrev pub two_mirrors : Shared number_job
two_mirrors = record {
  guards = new_guards (mirror_a ∷ mirror_b ∷ []);
  provider_metrics = [];
  channels = [];
}

-- mirror_a is excluded, the others score by what they are used
abbrev pub not_a : ProviderIdentifier → ℕ → ProviderChoice ℕ
not_a p n = elim (ProviderIdentifier-discrete p mirror_a) [ yes _ ↦ exclude | no _ ↦ include n ]

abbrev pub three_guards : List (ProviderGuard ProviderIdentifier)
three_guards = new_guards (mirror_a ∷ mirror_b ∷ mirror_c ∷ [])

-- A download that stands still at its size; the client gets all there is.
abbrev pub stalled_at : ℕ → GrowingFileSource ℕ
stalled_at size = record {
  current_filesize = λ s. (ok size, s);
  send = λ filesize received s.
      if ltb received filesize then (ok filesize, s) else (err IoError.broken_pipe, s);
}

-- A kernel that moves three bytes at a time.
abbrev pub three_bytes : ℕ → ℕ → ℕ → Option ℕ
three_bytes n offset count = some (min 3 count)

abbrev pub cache_of_seven : ℕ → Option CachedItem
cache_of_seven order = some (record { complete_size = some 10; cached_size = 10 })

-- A mirror that answers with five bytes of content, and a file that takes what is written.
abbrev pub answer_ok : Text → Status
answer_ok header = complete 200 ((codes "Content-Length", codes "5") ∷ [])

abbrev pub append_all : Text → Text → Result Text Text
append_all file data' = ok (file ++ data')

abbrev pub text_length : Text → ℕ
text_length = length

abbrev pub fresh_download : DownloadState
fresh_download = record {
  file = [];
  size_written = 0;
  received_header = [];
  header_success = none;
  last_chance = false;
  is_cacheable = true;
  cfs = none;
  tx = [];
}

-- mirror_a has failed once, the others never
-- a network on which every call succeeds, three bytes at a time
abbrev pub good_network : Network
good_network = record {
  write_all = λ c t. none;
  set_nodelay = λ c on. none;
  sendfile = three_bytes;
  last_os_error = IoError.other_error;
  now = codes "today";
}

abbrev pub unused : Connection
unused = record { sent = []; is_shut = false }

pub three_bytes-MovesBytes : MovesBytes three_bytes
three_bytes-MovesBytes n offset count size h pos = ground arith
