-- ===== src/Context.antt =====
-- flexo/src/lib.rs: `JobContext`. A call of `try_schedule` holds the mutex of the context; the thread
-- that it starts is a step of its own, which ends by `finish`.
pub mod Schedule
pub mod Start
pub mod Threads
pub mod Thread
use flexo.Base.{
  ℕ, zero, suc, ◌+◌, ◌≡◌, Bool, true, false, List, [], ◌∷◌, ◌++◌, Option, none, some, ltb, ◌==◌,
  contains, remove, if◌then◌else◌,
}
use flexo.Base.Map.{HashMap, insert}
use flexo.Guards.{Ord, ProviderChoice, include, Selected, new_guards, get_provider_guard}
use flexo.Metrics.{ProviderIdentifier, ProviderIdentifier-discrete, Metrics}
use flexo.Job.{
  Job, JobResult, complete, partial, unavailable, client_error, unexpected_internal_error,
  CachedItem,
}
use flexo.Order.{Shared, Run}

-- What `try_lock` finds of a thread's mutex.
pub data ThreadLock : Type 0 where
  free would_block poisoned : ThreadLock

pub record JobContext (J : Job) : Type 0 where
  pub shared : Shared J
  pub orders_in_progress : List J.Order
  pub panic_monitor : List ThreadLock

pub data ScheduleOutcome (J : Job) : Type 0 where
  already_in_progress : ScheduleOutcome J
  scheduled : ScheduleOutcome J
  cached : ScheduleOutcome J
  uncacheable : J.Provider → ScheduleOutcome J

-- A panic, or the outcome and the context afterwards.
pub data Scheduling (J : Job) : Type 0 where
  panicked : Scheduling J
  outcome : ScheduleOutcome J → JobContext J → Scheduling J

pub data JobOutcome (J : Job) : Type 0 where
  success : J.Provider → JobOutcome J
  error : Metrics → JobOutcome J

-- What the cache state and the start of the requested range decide.
pub data CacheDecision : Type 0 where
  redirect hit fetch : CacheDecision

unfoldable pub cache_decision : Option CachedItem → ℕ → CacheDecision
cache_decision none resume_from = if ltb 0 resume_from then redirect else fetch
cache_decision (some item) resume_from =
    if ltb item.cached_size resume_from then redirect else elim item.complete_size [
      | none ↦ fetch
      | some c ↦ if c == item.cached_size then hit else fetch
    ]

-- `drain`, `filter` and `collect` over the locks of earlier threads; `none` is the panic.
unfoldable pub still_running : List ThreadLock → Option (List ThreadLock)
still_running [] = some []
still_running (free ∷ ls) = still_running ls
still_running (would_block ∷ ls) = elim (still_running ls) [
  | none ↦ none
  | some rest ↦ some (would_block ∷ rest)
]
still_running (poisoned ∷ ls) = none

abbrev pub unwrap_or : Option ℕ → ℕ → ℕ
unwrap_or none d = d
unwrap_or (some n) d = n

module _ (J : Job) where
  open J use {
    Order, Provider, identifier, initial_score, Order-discrete, Provider-discrete, is_cacheable,
  }

  -- `check_duplicates` does not panic
  unfoldable pub check_duplicates : List ProviderIdentifier → List Provider → Bool
  check_duplicates identifiers [] = true
  check_duplicates identifiers (p ∷ ps) =
      if contains ProviderIdentifier-discrete (identifier p) identifiers
      then false
      else check_duplicates (identifier p ∷ identifiers) ps

  -- `JobContext::new`, if it does not panic
  unfoldable pub new_context : List Provider → Option (JobContext J)
  unfolding check_duplicates
  new_context initial_providers =
      if check_duplicates [] initial_providers
      then some (record {
        shared = record {
          guards = new_guards initial_providers;
          provider_metrics = [];
          channels = [];
        };
        orders_in_progress = [];
        panic_monitor = [];
      })
      else none

  -- `reset_provider_metrics`
  unfoldable pub reset_provider_metrics : JobContext J → JobContext J
  reset_provider_metrics ctx = record ctx { shared = record ctx.shared { provider_metrics = [] } }

  -- The provider for a redirect, and the context with its guard taken.
  unfoldable pub best_provider : JobContext J → Option Provider → Option (Provider × JobContext J)
  best_provider ctx (some p) = some (p, ctx)
  best_provider ctx none =
      elim (get_provider_guard ⦃o = J.ord_initial⦄ (λ g _. include (initial_score g))
        ctx.shared.guards) [
          | none ↦ none
          | some s ↦
              some (s.provider, record ctx { shared = record ctx.shared { guards = s.guards } })
        ]

  unfoldable pub redirect_to : Option (Provider × JobContext J) → Scheduling J
  redirect_to none = panicked
  redirect_to (some (p, ctx)) = outcome (uncacheable p) ctx

  -- `schedule`, up to the start of the thread
  unfoldable pub schedule : JobContext J → Scheduling J
  unfolding still_running
  schedule ctx = elim (still_running ctx.panic_monitor) [
    | none ↦ panicked
    | some locks ↦ outcome scheduled (record ctx { panic_monitor = locks ++ free ∷ [] })
  ]

  unfoldable pub try_schedule :
      (Order → Option CachedItem) → JobContext J → Order → Option Provider → Option ℕ → Scheduling J
  try_schedule cache_state ctx order custom_provider resume_from =
      if contains Order-discrete order ctx.orders_in_progress
      then outcome already_in_progress ctx
      else elim (cache_decision (if is_cacheable order then cache_state order else none)
          (unwrap_or resume_from 0)) [
            | redirect ↦ redirect_to (best_provider ctx custom_provider)
            | hit ↦ outcome cached ctx
            | fetch ↦ schedule (record ctx { orders_in_progress = order ∷ ctx.orders_in_progress })
          ]

  -- The end of the thread, with the result of `try_until_success`: the order is no longer in progress,
  -- and the channel of a completed job is kept for the next one.
  unfoldable pub finish : Order → JobResult J → JobContext J → JobOutcome J × JobContext J
  finish order result ctx =
      let ctx' : JobContext J = record ctx {
        orders_in_progress = remove Order-discrete order ctx.orders_in_progress;
      } in
      elim result [
        | complete channel provider size ↦ (
          success provider,
          record ctx' {
            shared = record ctx'.shared {
              channels = insert Provider-discrete provider channel ctx'.shared.channels;
            };
          },
        )
        | partial channel n ↦ (error ctx'.shared.provider_metrics, ctx')
        | JobResult.error channel e ↦ (error ctx'.shared.provider_metrics, ctx')
        | unavailable channel ↦ (error ctx'.shared.provider_metrics, ctx')
        | client_error ↦ (error ctx'.shared.provider_metrics, ctx')
        | unexpected_internal_error ↦ (error ctx'.shared.provider_metrics, ctx')
      ]
