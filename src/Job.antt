-- ===== src/Job.antt =====
-- flexo/src/lib.rs: what the scheduler asks of its environment. The traits `Provider`, `Order` and
-- `Job` are one record of types and methods; methods whose answers depend on the network or on the
-- file system are those of a `World`, which the n-th attempt consults as it then is.
use flexo.Base.{ℕ, Bool, true, false, Option}
use flexo.Guards.{Ord}
use flexo.Metrics.{ProviderIdentifier}

pub record DynamicProviderMetrics (S : Type 0) : Type 0 where
  pub num_failures : ℕ
  pub num_current_usages : ℕ
  pub initial_score : S

-- The associated types of `Job`, and the methods that are functions of their arguments.
pub record Job : Type 1 where
  pub Order : Type 0
  pub Provider : Type 0
  pub Channel : Type 0
  pub JobError : Type 0
  pub OrderError : Type 0
  pub InitialScore : Type 0
  pub ScoreCacheable : Type 0
  pub ScoreUncacheable : Type 0
  pub ord_initial : Ord InitialScore
  pub ord_cacheable : Ord ScoreCacheable
  pub ord_uncacheable : Ord ScoreUncacheable
  pub Order-discrete : Discrete Order
  pub Provider-discrete : Discrete Provider
  pub identifier : Provider → ProviderIdentifier
  pub initial_score : Provider → InitialScore
  pub cacheable_score : DynamicProviderMetrics InitialScore → ScoreCacheable
  pub uncacheable_score : DynamicProviderMetrics InitialScore → ScoreUncacheable
  pub is_cacheable : Order → Bool
  pub retryable : Order → Bool

pub data Result (A E : Type 0) : Type 0 where
  ok : A → Result A E
  err : E → Result A E

pub record CachedItem : Type 0 where
  pub complete_size : Option ℕ
  pub cached_size : ℕ

pub data FlexoProgress : Type 0 where
  unavailable : FlexoProgress
  job_size : ℕ → FlexoProgress
  progress : ℕ → FlexoProgress
  completed : FlexoProgress
  order_error : FlexoProgress

pub data ChannelEstablishment : Type 0 where
  new_channel existing_channel : ChannelEstablishment

-- `JobCompleted`, `JobPartiallyCompleted` and `JobTerminated` are the arguments of constructors.
pub data JobResult (J : Job) : Type 0 where
  complete : J.Channel → J.Provider → ℕ → JobResult J
  partial : J.Channel → ℕ → JobResult J
  error : J.Channel → J.JobError → JobResult J
  unavailable : J.Channel → JobResult J
  client_error : JobResult J
  unexpected_internal_error : JobResult J

-- What the methods that depend on the network and the file system answer, when they return. The Boolean is
-- `last_chance`.
pub record World (J : Job) : Type 0 where
  pub new_channel : J.Order → Bool → Result J.Channel J.OrderError
  pub reuse_channel : J.Order → Bool → J.Channel → Result J.Channel J.OrderError
  pub serve_from_provider : J.Provider → J.Order → J.Channel → JobResult J
  pub handle_error : J.OrderError → JobResult J

module _ {J : Job} where
  abbrev pub is_success : JobResult J → Bool
  is_success (complete c p n) = true
  is_success _ = false

  -- the results after which the loop of `try_until_success` breaks at once
  abbrev pub is_fatal : JobResult J → Bool
  is_fatal client_error = true
  is_fatal unexpected_internal_error = true
  is_fatal _ = false

  -- the results for which the provider is punished
  abbrev pub is_punished : JobResult J → Bool
  is_punished (partial c n) = true
  is_punished (error c e) = true
  is_punished _ = false
