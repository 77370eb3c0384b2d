-- ===== src/Context/Schedule.antt =====
-- What `try_schedule` answers, and what it leaves alone.
use flexo.Base.{
  ℕ, ◌≤◌, ◌≡◌, ◌≢◌, ◌↔◌, refl, Bool, true, false, ◌∷◌, Option, none, some, arith, contains,
  Bool-cases, inl, inr, if◌then◌else◌,
}
use flexo.Job.{Job, CachedItem}
use flexo.Context.{
  JobContext, ScheduleOutcome, already_in_progress, scheduled, cached, Scheduling, outcome,
  CacheDecision, redirect, hit, fetch, cache_decision, unwrap_or, best_provider, redirect_to,
  schedule, try_schedule,
}

-- A file that is in the cache as a whole, from the requested start on.
pub record IsHit (item : Option CachedItem) (start : ℕ) : Type 0 where
  pub size : ℕ
  pub stored : item ≡ some (record { complete_size = some size; cached_size = size })
  pub within : start ≤ size

cache_decision-IsHit :
    (item : Option CachedItem) (start : ℕ) → cache_decision item start ≡ hit → IsHit item start
unfolding cache_decision
cache_decision-IsHit none start h = ground arith
cache_decision-IsHit (some item) start h = record {
  size = item.cached_size;
  stored = ground arith;
  within = ground arith;
}

IsHit-cache_decision :
    (item : Option CachedItem) (start : ℕ) → IsHit item start → cache_decision item start ≡ hit
unfolding cache_decision
IsHit-cache_decision item start h = ground arith

module _ (J : Job) (cache_state : J.Order → Option CachedItem) (ctx : JobContext J)
    (order : J.Order) (custom : Option J.Provider) (resume_from : Option ℕ) where
  abbrev answer : Scheduling J
  answer = try_schedule J cache_state ctx order custom resume_from

  abbrev item : Option CachedItem
  item = if J.is_cacheable order then cache_state order else none

  pub schedule-answer :
      (c : JobContext J) (out : ScheduleOutcome J) (ctx' : JobContext J)
      → schedule J c ≡ outcome out ctx'
      → (out ≡ scheduled)
        × (ctx'.orders_in_progress ≡ c.orders_in_progress)
        × (ctx'.shared ≡ c.shared)
  unfolding schedule
  schedule-answer c out ctx' h = ground arith

  redirect-answer :
      (out : ScheduleOutcome J) (ctx' : JobContext J)
      → redirect_to J (best_provider J ctx custom) ≡ outcome out ctx'
      → (out ≢ scheduled)
        × (out ≢ cached)
        × (out ≢ already_in_progress)
        × (ctx'.orders_in_progress ≡ ctx.orders_in_progress)
  unfolding redirect_to best_provider
  redirect-answer out ctx' h = ground arith

  -- The context after an answer: the order is in progress exactly if it was scheduled or had been
  -- before, nothing else is, and an answer without a redirect leaves the shared state alone.
  pub record Answered (out : ScheduleOutcome J) (ctx' : JobContext J) : Type 0 where
    pub refused :
        (out ≡ already_in_progress)
        ↔ (contains J.Order-discrete order ctx.orders_in_progress ≡ true)
    pub started :
        out ≡ scheduled
        → (contains J.Order-discrete order ctx.orders_in_progress ≡ false)
          × (ctx'.orders_in_progress ≡ order ∷ ctx.orders_in_progress)
          × (ctx'.shared ≡ ctx.shared)
    pub not_started : out ≢ scheduled → ctx'.orders_in_progress ≡ ctx.orders_in_progress

  started-Answered :
      (d : CacheDecision) (out : ScheduleOutcome J) (ctx' : JobContext J)
      → contains J.Order-discrete order ctx.orders_in_progress ≡ false
      → (elim d [
        | redirect ↦ redirect_to J (best_provider J ctx custom)
        | hit ↦ outcome cached ctx
        | fetch ↦ schedule J (record ctx { orders_in_progress = order ∷ ctx.orders_in_progress })
      ])
        ≡ outcome out ctx'
      → Answered out ctx'
  started-Answered redirect out ctx' new h =
      let (a, b, c, d) = redirect-answer out ctx' h in
      record {
        refused = ((λ e. absurd (c e)), (λ e. cc));
        started = λ e. absurd (a e);
        not_started = λ _. d;
      }
  started-Answered hit out ctx' new h = record {
    refused = ((λ e. cc), (λ e. cc));
    started = λ e. cc;
    not_started = λ _. ground arith;
  }
  started-Answered fetch out ctx' new h =
      let (a, b, c) = schedule-answer _ out ctx' h in
      record {
        refused = ((λ e. cc), (λ e. cc));
        started = λ e. (new, b, c);
        not_started = λ e. absurd (e a);
      }

  -- What `try_schedule` answers about orders in progress: an order in progress is refused, and only
  -- such an order; a scheduled order was not in progress and is now, with nothing else changed there;
  -- any other answer leaves the orders in progress as they are.
  pub try_schedule-Answered :
      (out : ScheduleOutcome J) (ctx' : JobContext J)
      → answer ≡ outcome out ctx'
      → Answered out ctx'
  unfolding try_schedule
  try_schedule-Answered out ctx' h =
      elim (Bool-cases (contains J.Order-discrete order ctx.orders_in_progress)) [
        | inl busy ↦
            let same = rw busy at h in
            record {
              refused = ((λ _. busy), (λ _. cc same));
              started = λ e. cc same;
              not_started = λ _. ground (arith, same);
            }
        | inr new ↦ started-Answered _ out ctx' new (rw new at h)
      ]

  module _ (start : ℕ) where
    -- the item that the cache decision sees
    hit_of_cached :
        (can : Bool) (d : CacheDecision)
        → cache_decision (if can then cache_state order else none) start ≡ d
        → (elim d [
          | redirect ↦ redirect_to J (best_provider J ctx custom)
          | hit ↦ outcome cached ctx
          | fetch ↦ schedule J (record ctx { orders_in_progress = order ∷ ctx.orders_in_progress })
        ])
          ≡ outcome cached ctx
        → (can ≡ true) × IsHit (cache_state order) start
    hit_of_cached can redirect e h =
        let (a, b, c, d) = redirect-answer cached ctx h in absurd (b refl)
    hit_of_cached true hit e h = (refl, cache_decision-IsHit (cache_state order) start e)
    hit_of_cached false hit e h =
        let item = cache_decision-IsHit none start e in absurd (none-≢-some item.stored)
      where
        none-≢-some : {s : CachedItem} → none ≢ some s
        none-≢-some e = cc
    hit_of_cached can fetch e h =
        let (a, b, c) = schedule-answer _ cached ctx h in let no : ⊥ = cc a in absurd no

  -- The answer is that the order is cached exactly if it is not in progress, can be cached, and its
  -- file is complete and not shorter than the start of the requested range.
  pub try_schedule-cached_iff : (answer ≡ outcome cached ctx) ↔ (
      (contains J.Order-discrete order ctx.orders_in_progress ≡ false)
      × (J.is_cacheable order ≡ true)
      × IsHit (cache_state order) (unwrap_or resume_from 0))
  unfolding try_schedule
  try_schedule-cached_iff = (to, from)
    where
      to :
          answer ≡ outcome cached ctx
          → (contains J.Order-discrete order ctx.orders_in_progress ≡ false)
            × (J.is_cacheable order ≡ true)
            × IsHit (cache_state order) (unwrap_or resume_from 0)
      to h = elim (Bool-cases (contains J.Order-discrete order ctx.orders_in_progress)) [
        | inl busy ↦ (let same = rw busy at h in let no : ⊥ = cc same in absurd no)
        | inr new ↦
            (let (can, stored) =
                hit_of_cached (unwrap_or resume_from 0) (J.is_cacheable order) _ refl
                  (rw new at h) in
              (new, can, stored))
      ]

      from :
          (contains J.Order-discrete order ctx.orders_in_progress ≡ false)
            × (J.is_cacheable order ≡ true)
            × IsHit (cache_state order) (unwrap_or resume_from 0)
          → answer ≡ outcome cached ctx
      from (new, can, h) =
          rw (new, can, IsHit-cache_decision (cache_state order) (unwrap_or resume_from 0) h) refl
