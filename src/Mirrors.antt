-- ===== src/Mirrors.antt =====
-- flexo/src/mirror_fetch.rs, with relax of flexo/src/mirror_config.rs: the mirrors that the status page
-- lists. Numbers of the types f64 and i32 are of parameter types, as they are only compared and carried
-- along; JSON and the network are parameters.
pub mod Fetch
pub mod Latency
use flexo.Base.{
  ℕ, zero, suc, ◌+◌, ◌-◌, Bool, true, false, not, ◌&&◌, ◌||◌, List, [], ◌∷◌, ◌++◌, Option, none,
  some, any, if◌then◌else◌,
}
use flexo.Base.Text.{Text, text_eq}
use flexo.Job.{Result, ok, err}

pub data MirrorProtocol : Type 0 where
  http https rsync ftp : MirrorProtocol

pub record MirrorUrlOption (F I : Type 0) : Type 0 where
  pub url : Text
  pub protocol : Option MirrorProtocol
  pub last_sync : Option Text
  pub completion_pct : Option F
  pub delay : Option I
  pub duration_avg : Option F
  pub duration_stddev : Option F
  pub score : Option F
  pub country_code : Option Text
  pub ipv4 : Option Bool
  pub ipv6 : Option Bool

pub record Mirror (F I : Type 0) : Type 0 where
  pub url : Text
  pub protocol : MirrorProtocol
  pub last_sync : Text
  pub completion_pct : F
  pub delay : I
  pub duration_avg : F
  pub duration_stddev : F
  pub score : ℕ
  pub country_code : Text
  pub ipv4 : Bool
  pub ipv6 : Bool

pub data MirrorsRandomOrSort : Type 0 where
  sort random : MirrorsRandomOrSort

-- The settings by which mirrors are chosen.
pub record MirrorsAutoConfig (F : Type 0) : Type 0 where
  pub mirrors_status_json_endpoint : Text
  pub mirrors_status_json_endpoint_fallbacks : List Text
  pub mirrors_blacklist : List Text
  pub https_required : Bool
  pub ipv4 : Bool
  pub ipv6 : Bool
  pub max_score : F
  pub num_mirrors : ℕ
  pub mirrors_random_or_sort : MirrorsRandomOrSort
  pub timeout : ℕ
  pub allowed_countries : List Text

-- `?` on an option
abbrev pub and_some : {A B : Type 0} → Option A → (A → Option B) → Option B
and_some none f = none
and_some (some a) f = f a

abbrev pub is_https : MirrorProtocol → Bool
is_https https = true
is_https http = false
is_https rsync = false
is_https ftp = false

abbrev pub is_http : MirrorProtocol → Bool
is_http http = true
is_http https = false
is_http rsync = false
is_http ftp = false

-- The loop of `try_num_attempts` after the n-th call of the action, with so many calls left.
unfoldable pub retry : {A E : Type 0} → (ℕ → Result A E) → ℕ → ℕ → Result A E
retry action zero n = action n
retry action (suc left) n =
    let rest = retry action left (n + 1) in elim (action n) [ ok a ↦ ok a | err e ↦ rest ]

unfoldable pub try_num_attempts : {A E : Type 0} → ℕ → (ℕ → Result A E) → Result A E
unfolding retry
try_num_attempts max_num_attempts action = retry action (max_num_attempts - 1) 0

abbrev pub initial_connectivity_num_attempts : ℕ
initial_connectivity_num_attempts = 8

module _ {F I : Type 0} where
  -- `scaled` is the conversion of a score to an integer.
  unfoldable pub mirror_url : (F → ℕ) → MirrorUrlOption F I → Option (Mirror F I)
  mirror_url scaled o = and_some o.protocol λ protocol. and_some o.last_sync λ last_sync.
      and_some o.completion_pct λ completion_pct. and_some o.delay λ delay.
        and_some o.duration_avg λ duration_avg. and_some o.duration_stddev λ duration_stddev.
          and_some o.score λ score. and_some o.country_code λ country_code. and_some o.ipv4 λ ipv4.
            and_some o.ipv6 λ ipv6. some (record {
              url = o.url;
              protocol = protocol;
              last_sync = last_sync;
              completion_pct = completion_pct;
              delay = delay;
              duration_avg = duration_avg;
              duration_stddev = duration_stddev;
              score = scaled score;
              country_code = country_code;
              ipv4 = ipv4;
              ipv6 = ipv6;
            })

  -- `MirrorList::from`
  unfoldable pub mirror_list : (F → ℕ) → List (MirrorUrlOption F I) → List (Mirror F I)
  mirror_list scaled [] = []
  mirror_list scaled (o ∷ os) =
      let rest = mirror_list scaled os in
      elim (mirror_url scaled o) [ none ↦ rest | some m ↦ m ∷ rest ]

  -- `exceeds` says whether a score as an integer is above a limit.
  unfoldable pub filter_predicate : (F → ℕ → Bool) → MirrorsAutoConfig F → Mirror F I → Bool
  filter_predicate exceeds mirrors_auto m = not (
      (mirrors_auto.https_required && not (is_https m.protocol))
      || (mirrors_auto.ipv4 && not m.ipv4)
      || (mirrors_auto.ipv6 && not m.ipv6)
      || exceeds mirrors_auto.max_score m.score
      || any (λ url. text_eq url m.url) mirrors_auto.mirrors_blacklist)

  -- The mirrors, behind those taken so far, without those with a URL that was there before.
  unfoldable pub push_new : List (Mirror F I) → List (Mirror F I) → List (Mirror F I)
  push_new mirrors [] = mirrors
  push_new mirrors (m ∷ ms) =
      let skipped = push_new mirrors ms in
      let pushed = push_new (mirrors ++ m ∷ []) ms in
      if any (λ (k : Mirror F I). text_eq k.url m.url) mirrors then skipped else pushed

  -- `perform` is the n-th attempt at a URL, `from_json` the parser of `serde_json`.
  unfoldable pub fetch_providers_from_json_endpoint :
      {E : Type 0}
      → (Text → ℕ → Result Text E)
      → (Text → Result (List (MirrorUrlOption F I)) E)
      → (F → ℕ)
      → Text
      → Result (List (Mirror F I)) E
  unfolding try_num_attempts push_new mirror_list
  fetch_providers_from_json_endpoint perform from_json scaled json_endpoint_uri =
      elim (try_num_attempts initial_connectivity_num_attempts (perform json_endpoint_uri)) [
        | err e ↦ err e
        | ok json ↦ elim (from_json json) [
          | err e ↦ err e
          | ok options ↦ ok (push_new [] (mirror_list scaled options))
        ]
      ]

-- `relaxed_score` adds 3.0.
unfoldable pub relax : {F : Type 0} → (F → F) → MirrorsAutoConfig F → MirrorsAutoConfig F
relax relaxed_score c = record c {
  max_score = relaxed_score c.max_score;
  timeout = c.timeout + 100;
}
