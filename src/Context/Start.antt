-- ===== src/Context/Start.antt =====
-- The start of a range that is served from a file.
use flexo.Base.{
  ℕ, ◌≤◌, ◌≡◌, refl, ◌∷◌, Option, none, some, arith, contains, Bool-cases, inl, inr, ltb, subst,
  sym, ◌∙◌, if◌then◌else◌,
}
use flexo.Job.{Job, CachedItem}
use flexo.Context.{
  JobContext, ScheduleOutcome, already_in_progress, scheduled, cached, uncacheable, outcome,
  CacheDecision, redirect, hit, fetch, cache_decision, unwrap_or, best_provider, redirect_to,
  schedule, try_schedule,
}
use flexo.Context.Schedule.{schedule-answer}

-- A size that is not less than what is cached is not less than the start either.
abbrev pub Covers : Option CachedItem → ℕ → Type 0
Covers item start =
    (size : ℕ) → ((c : CachedItem) → item ≡ some c → c.cached_size ≤ size) → start ≤ size

decision-Covers :
    (item : Option CachedItem) (start : ℕ)
    → (cache_decision item start ≡ redirect → ⊥)
    → Covers item start
unfolding cache_decision
decision-Covers none start h size within = elim (Bool-cases (ltb 0 start)) [
  | inl late ↦ absurd (h (rw late refl))
  | inr zero ↦ ground arith
]
decision-Covers (some item) start h size within = elim (Bool-cases (ltb item.cached_size start)) [
  | inl late ↦ absurd (h (rw late refl))
  | inr early ↦ let known = within item refl in ground arith
]

module _ (J : Job) (cache_state : J.Order → Option CachedItem) (ctx : JobContext J)
    (order : J.Order) (custom : Option J.Provider) (resume_from : Option ℕ) where
  -- An order that is served from a file in the cache, or downloaded: a file that is not shorter than what
  -- is cached reaches the start of the range.
  unfoldable pub IsReached : ScheduleOutcome J → Type 0
  IsReached already_in_progress = Unit
  IsReached (uncacheable p) = Unit
  IsReached scheduled =
      Covers (if J.is_cacheable order then cache_state order else none) (unwrap_or resume_from 0)
  IsReached cached =
      Covers (if J.is_cacheable order then cache_state order else none) (unwrap_or resume_from 0)

  redirect-IsReached :
      (best : Option (J.Provider × JobContext J)) (out : ScheduleOutcome J) (ctx' : JobContext J)
      → redirect_to J best ≡ outcome out ctx'
      → IsReached out
  unfolding redirect_to IsReached
  redirect-IsReached none out ctx' h = cc
  redirect-IsReached (some (p, c)) out ctx' h =
      let same : uncacheable p ≡ out = cc h in subst IsReached same tt

  schedule-IsReached :
      (c : JobContext J) (out : ScheduleOutcome J) (ctx' : JobContext J)
      → IsReached scheduled
      → schedule J c ≡ outcome out ctx'
      → IsReached out
  schedule-IsReached c out ctx' covers h =
      subst IsReached
        (sym (schedule-answer J cache_state ctx order custom resume_from c out ctx' h).0) covers

  decided-IsReached :
      (d : CacheDecision) (out : ScheduleOutcome J) (ctx' : JobContext J)
      → cache_decision
          (if J.is_cacheable order then cache_state order else none)
          (unwrap_or resume_from 0)
        ≡ d
      → (elim d [
        | redirect ↦ redirect_to J (best_provider J ctx custom)
        | hit ↦ outcome cached ctx
        | fetch ↦ schedule J (record ctx { orders_in_progress = order ∷ ctx.orders_in_progress })
      ])
        ≡ outcome out ctx'
      → IsReached out
  unfolding IsReached
  decided-IsReached redirect out ctx' e h =
      redirect-IsReached (best_provider J ctx custom) out ctx' h
  decided-IsReached hit out ctx' e h =
      let same : cached ≡ out = cc h in
      subst IsReached same (decision-Covers _ (unwrap_or resume_from 0) (λ late. cc (sym e ∙ late)))
  decided-IsReached fetch out ctx' e h =
      schedule-IsReached _ out ctx'
        (decision-Covers _ (unwrap_or resume_from 0) (λ late. cc (sym e ∙ late))) h

  -- What is served from a file reaches the start of the range, whatever the state of the scheduler.
  pub try_schedule-IsReached :
      (out : ScheduleOutcome J) (ctx' : JobContext J)
      → try_schedule J cache_state ctx order custom resume_from ≡ outcome out ctx'
      → IsReached out
  unfolding try_schedule IsReached
  try_schedule-IsReached out ctx' h =
      elim (Bool-cases (contains J.Order-discrete order ctx.orders_in_progress)) [
        | inl busy ↦
            let same : already_in_progress ≡ out = cc (rw busy at h) in subst IsReached same tt
        | inr new ↦ decided-IsReached _ out ctx' refl (rw new at h)
      ]
