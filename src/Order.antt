-- ===== src/Order.antt =====
-- flexo/src/lib.rs: the retry loop of an order. A run holds the state that threads share, with the
-- locks taken as in the source, and the loop's local variables. `Others` is what other threads do to
-- the shared state while this one holds no lock.
pub mod Selection
pub mod Attempts
pub mod Rounds
pub mod Loop
pub mod Single
pub mod Failures
pub mod Custom
use flexo.Base.{
  ℕ, zero, suc, ◌+◌, ◌≡◌, Bool, true, false, not, ◌||◌, List, [], ◌∷◌, ◌++◌, Option, none, some,
  leb, contains, if◌then◌else◌,
}
use flexo.Base.Map.{HashMap, get, remove}
use flexo.Guards.{
  Ord, ProviderChoice, include, exclude, ProviderGuard, Selected, drop_at, get_provider_guard,
}
use flexo.Metrics.{
  ProviderIdentifier, ProviderIdentifier-discrete, Metrics, metric, record_usage, punish, pardon,
}
use flexo.Job.{
  Job, JobResult, Result, ok, err, World, DynamicProviderMetrics, ChannelEstablishment,
  FlexoProgress, is_success, is_fatal, is_punished,
}

abbrev pub num_max_attempts : ℕ
num_max_attempts = 25

pub data IntegrationTestMessage : Type 0 where
  provider_selected : ProviderIdentifier → IntegrationTestMessage
  channel_established : ChannelEstablishment → IntegrationTestMessage
  order_error : IntegrationTestMessage

-- What threads share: the guards, the metrics and the idle channels.
pub record Shared (J : Job) : Type 0 where
  pub guards : List (ProviderGuard J.Provider)
  pub provider_metrics : Metrics
  pub channels : HashMap J.Provider J.Channel

-- What other threads do to the shared state in the n-th round, before `select_provider` and while the
-- job runs, and before `pardon`.
pub record Others (J : Job) : Type 0 where
  pub before_select : ℕ → Shared J → Shared J
  pub during_job : ℕ → Shared J → Shared J
  pub before_pardon : Shared J → Shared J

-- The loop's variables; messages and progress are what was sent, oldest first.
pub record Run (J : Job) : Type 0 where
  pub num_attempt : ℕ
  pub shared : Shared J
  pub punished_providers : List ProviderIdentifier
  pub unsuccessful_providers : List ProviderIdentifier
  pub messages : List IntegrationTestMessage
  pub tx_progress : List FlexoProgress

-- The guard of an attempt: `index` is its place in the vector, and `none` for a custom provider.
pub record Guarded (J : Job) : Type 0 where
  pub index : Option ℕ
  pub provider : J.Provider
  pub is_last_provider : Bool
  pub shared : Shared J

module _ (J : Job) where
  open J use {
    Order, Provider, Channel, OrderError, ScoreCacheable, ScoreUncacheable, InitialScore,
    identifier, initial_score, cacheable_score, uncacheable_score, is_cacheable, retryable,
    ord_cacheable, ord_uncacheable, Provider-discrete,
  }

  unfoldable pub dynamic_metric : Metrics → Provider → ℕ → DynamicProviderMetrics InitialScore
  dynamic_metric metrics p num_current_usages = record {
    num_failures = (metric (identifier p) metrics).num_failures;
    num_current_usages = num_current_usages;
    initial_score = initial_score p;
  }

  -- the closures that `select_provider` hands to `get_provider_guard`
  unfoldable pub score_unless_excluded {κ} :
      {O : Type κ}
      → (DynamicProviderMetrics InitialScore → O)
      → Metrics
      → List ProviderIdentifier
      → Provider
      → ℕ
      → ProviderChoice O
  score_unless_excluded from_metrics metrics exclude_providers p num_current_usages =
      if contains ProviderIdentifier-discrete (identifier p) exclude_providers
      then exclude
      else include (from_metrics (dynamic_metric metrics p num_current_usages))

  unfoldable pub choose_guard :
      Order
      → Metrics
      → List ProviderIdentifier
      → List (ProviderGuard Provider)
      → Option (Selected Provider)
  choose_guard order metrics excluded guards =
      if is_cacheable order
      then get_provider_guard ⦃o = ord_cacheable⦄
          (score_unless_excluded cacheable_score metrics excluded) guards
      else get_provider_guard ⦃o = ord_uncacheable⦄
          (score_unless_excluded uncacheable_score metrics excluded) guards

  -- the guard with its use recorded
  abbrev pub guarded_by : Shared J → Selected Provider → Guarded J
  guarded_by s g = record {
    index = some g.index;
    provider = g.provider;
    is_last_provider = leb g.num_remaining 1;
    shared = record {
      guards = g.guards;
      provider_metrics = record_usage (identifier g.provider) s.provider_metrics;
      channels = s.channels;
    };
  }

  unfoldable pub select_provider :
      Order → Option Provider → List ProviderIdentifier → Shared J → Option (Guarded J)
  select_provider order (some p) exclude_providers s =
      some (record { index = none; provider = p; is_last_provider = true; shared = s })
  select_provider order none exclude_providers s =
      elim (choose_guard order s.provider_metrics exclude_providers s.guards) [
        | none ↦ none
        | some g ↦ some (guarded_by s g)
      ]

  abbrev established :
      ChannelEstablishment
      → Result Channel OrderError
      → Result (Channel × ChannelEstablishment) OrderError
  established how (ok c) = ok (c, how)
  established how (err e) = err e

  -- The channel and whether it is new, and the channels that stay idle.
  unfoldable pub get_channel :
      World J
      → Order
      → Provider
      → Bool
      → HashMap Provider Channel
      → Result (Channel × ChannelEstablishment) OrderError × HashMap Provider Channel
  get_channel world order provider last_chance channels =
      elim (get Provider-discrete provider channels) [
        | none ↦ (
          established ChannelEstablishment.new_channel (world.new_channel order last_chance),
          channels,
        )
        | some channel ↦ (
          established ChannelEstablishment.existing_channel
              (world.reuse_channel order last_chance channel),
          remove Provider-discrete provider channels,
        )
      ]

  -- What an attempt yields: the result, the message, and the progress that the loop itself sends.
  pub record Served : Type 0 where
    pub result : JobResult J
    pub message : IntegrationTestMessage
    pub sent : List FlexoProgress

  unfoldable pub serve :
      World J → Order → Provider → Result (Channel × ChannelEstablishment) OrderError → Served
  serve world order provider (ok (channel, how)) = record {
    result = world.serve_from_provider provider order channel;
    message = channel_established how;
    sent = [];
  }
  serve world order provider (err e) = record {
    result = world.handle_error e;
    message = IntegrationTestMessage.order_error;
    sent = FlexoProgress.order_error ∷ [];
  }

  unfoldable pub last_chance : Order → ℕ → Bool → Bool
  last_chance order num_attempt is_last_provider =
      leb num_max_attempts num_attempt || is_last_provider || not (retryable order)

  -- the punishment after a result
  unfoldable pub punish_if : Bool → ProviderIdentifier → Run J → Run J
  punish_if false id r = r
  punish_if true id r = record r {
    shared = record r.shared { provider_metrics = punish id r.shared.provider_metrics };
    punished_providers = r.punished_providers ++ id ∷ [];
  }

  -- The guard goes out of scope at the end of a round.
  unfoldable pub release_guard : Option ℕ → Shared J → Shared J
  release_guard none s = s
  release_guard (some i) s = record s { guards = drop_at i s.guards }

  -- A round of the loop: what came of it, whether the loop breaks, and the run afterwards.
  pub record Attempt : Type 0 where
    pub result : JobResult J
    pub stop : Bool
    pub run : Run J

  -- the part of a round behind `select_provider`
  unfoldable pub attempt_with :
      World J → (Shared J → Shared J) → Order → Run J → Guarded J → Attempt
  attempt_with world during order r g =
      let num_attempt = r.num_attempt + 1 in
      let id = identifier g.provider in
      let last = last_chance order num_attempt g.is_last_provider in
      let got = get_channel world order g.provider last g.shared.channels in
      let served = serve world order g.provider got.0 in
      let result = served.result in
      let stop = is_fatal result || is_success result || last in
      let r' : Run J = punish_if (is_punished result) id (record {
        num_attempt = num_attempt;
        shared = during (record g.shared { channels = got.1 });
        punished_providers = r.punished_providers;
        unsuccessful_providers = r.unsuccessful_providers;
        messages = r.messages ++ provider_selected id ∷ served.message ∷ [];
        tx_progress = r.tx_progress ++ served.sent;
      }) in
      record {
        result = result;
        stop = stop;
        run = record r' {
          shared = release_guard g.index r'.shared;
          unsuccessful_providers =
              if stop then r'.unsuccessful_providers else id ∷ r'.unsuccessful_providers;
        };
      }

  -- A panic of the thread, more rounds than the fuel, or a result with the final run.
  pub data Outcome : Type 0 where
    panicked : Outcome
    out_of_fuel : Outcome
    finished : JobResult J → Run J → Outcome

  module _ (world : ℕ → World J) (others : Others J) (order : Order)
      (custom_provider : Option Provider) where
    -- one round of the loop
    unfoldable pub attempt : Run J → Option Attempt
    attempt r =
        elim (select_provider order custom_provider r.unsuccessful_providers
          (others.before_select (r.num_attempt + 1) r.shared)) [
            | none ↦ none
            | some g ↦ some (
                attempt_with (world (r.num_attempt + 1)) (others.during_job (r.num_attempt + 1))
                  order r g)
          ]

    -- `pardon` after the loop, when the order has failed
    unfoldable pub pardon_unless_success : JobResult J → Run J → Run J
    pardon_unless_success result r =
        if is_success result
        then r
        else (let s = others.before_pardon r.shared in
            record r {
              shared = record s {
                provider_metrics = pardon r.punished_providers s.provider_metrics;
              };
            })

    unfoldable pub try_loop : ℕ → Run J → Outcome
    try_loop zero r = out_of_fuel
    try_loop (suc fuel) r = elim (attempt r) [
      | none ↦ panicked
      | some a ↦ elim a.stop [
        | true ↦ finished a.result (pardon_unless_success a.result a.run)
        | false ↦ try_loop fuel a.run
      ]
    ]

    abbrev pub first_run : Shared J → Run J
    first_run s = record {
      num_attempt = 0;
      shared = s;
      punished_providers = [];
      unsuccessful_providers = [];
      messages = [];
      tx_progress = [];
    }

    -- `last_chance` breaks the loop in round 25 at the latest, so 25 units of fuel are enough.
    unfoldable pub try_until_success : Shared J → Outcome
    try_until_success s = try_loop num_max_attempts (first_run s)
