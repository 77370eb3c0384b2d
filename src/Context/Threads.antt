-- ===== src/Context/Threads.antt =====
-- The threads that download orders for one context: a request starts one, the end of the thread takes
-- its order out of the orders in progress.
use flexo.Base.{
  ℕ, ◌≡◌, refl, arith, true, false, List, [], ◌∷◌, Option, contains, remove, Distinct,
  contains-NotIn, remove-Distinct,
}
use flexo.Job.{Job, JobResult, CachedItem}
use flexo.Context.{
  JobContext, ScheduleOutcome, already_in_progress, scheduled, cached, uncacheable, outcome,
  try_schedule, finish,
}
use flexo.Context.Schedule.{Answered, try_schedule-Answered}

-- The context, and the orders of the threads that still download, the latest first.
pub record System (J : Job) : Type 0 where
  pub context : JobContext J
  pub threads : List J.Order

module _ (J : Job) where
  -- the threads after an answer to a request
  abbrev pub threads_after : ScheduleOutcome J → J.Order → List J.Order → List J.Order
  threads_after scheduled order threads = order ∷ threads
  threads_after already_in_progress order threads = threads
  threads_after cached order threads = threads
  threads_after (uncacheable p) order threads = threads

  -- A request is answered, a thread ends with some result, or something else of the context changes.
  pub data Step (s : System J) : System J → Type 0 where
    requested :
        (cache_state : J.Order → Option CachedItem) (order : J.Order) (custom : Option J.Provider)
        (resume_from : Option ℕ) (out : ScheduleOutcome J) (ctx : JobContext J)
        → try_schedule J cache_state s.context order custom resume_from ≡ outcome out ctx
        → Step s (record { context = ctx; threads = threads_after out order s.threads })
    ended :
        (order : J.Order) (result : JobResult J)
        → contains J.Order-discrete order s.threads ≡ true
        → Step s (record {
          context = (finish J order result s.context).1;
          threads = remove J.Order-discrete order s.threads;
        })
    changed :
        (ctx : JobContext J)
        → ctx.orders_in_progress ≡ s.context.orders_in_progress
        → Step s (record { context = ctx; threads = s.threads })

  pub data Reach (s : System J) : System J → Type 0 where
    start : Reach s s
    later : {t u : System J} → Reach s t → Step t u → Reach s u

  -- The orders in progress are those of the threads, and no two threads have the same order.
  pub record IsExclusive (s : System J) : Type 0 where
    pub tracked : s.context.orders_in_progress ≡ s.threads
    pub distinct : Distinct s.threads

  pub finish-orders :
      (order : J.Order) (result : JobResult J) (ctx : JobContext J)
      → ((finish J order result ctx).1).orders_in_progress
        ≡ remove J.Order-discrete order ctx.orders_in_progress
  unfolding finish
  finish-orders order result ctx = ground arith

  module _ {cache_state : J.Order → Option CachedItem} {ctx : JobContext J} {order : J.Order}
      {custom : Option J.Provider} {resume_from : Option ℕ} {ctx' : JobContext J}
      {threads : List J.Order} where
    Answered-IsExclusive :
        (out : ScheduleOutcome J)
        → Answered J cache_state ctx order custom resume_from out ctx'
        → IsExclusive (record { context = ctx; threads = threads })
        → IsExclusive (record { context = ctx'; threads = threads_after out order threads })
    Answered-IsExclusive scheduled a i =
        let (new, orders, _) = a.started refl in
        let tracked : ctx.orders_in_progress ≡ threads = i.tracked in
        let absent : contains J.Order-discrete order threads ≡ false = rw tracked at new in
        record {
          tracked = rw (orders, tracked) refl;
          distinct = (contains-NotIn J.Order-discrete order threads absent, i.distinct);
        }
    Answered-IsExclusive already_in_progress a i = record {
      tracked = rw (a.not_started (λ e. cc e)) i.tracked;
      distinct = i.distinct;
    }
    Answered-IsExclusive cached a i = record {
      tracked = rw (a.not_started (λ e. cc e)) i.tracked;
      distinct = i.distinct;
    }
    Answered-IsExclusive (uncacheable p) a i = record {
      tracked = rw (a.not_started (λ e. cc e)) i.tracked;
      distinct = i.distinct;
    }

  Step-IsExclusive : {s t : System J} → Step s t → IsExclusive s → IsExclusive t
  Step-IsExclusive {s} (requested cache_state order custom resume_from out ctx e) i =
      Answered-IsExclusive out
        (try_schedule-Answered J cache_state s.context order custom resume_from out ctx e) i
  Step-IsExclusive {s} (ended order result here) i = record {
    tracked = rw (finish-orders order result s.context, i.tracked) refl;
    distinct = remove-Distinct J.Order-discrete order s.threads i.distinct;
  }
  Step-IsExclusive {s} (changed ctx same) i = record {
    tracked = rw same i.tracked;
    distinct = i.distinct;
  }

  -- From a context that knows no orders, whatever is requested, ends and changes: the orders in
  -- progress are those that threads download, and no order is downloaded by two threads at once.
  pub Reach-IsExclusive :
      (ctx : JobContext J) (t : System J)
      → ctx.orders_in_progress ≡ []
      → Reach (record { context = ctx; threads = [] }) t
      → IsExclusive t
  Reach-IsExclusive ctx t none_yet start = record { tracked = none_yet; distinct = tt }
  Reach-IsExclusive ctx t none_yet (later r st) =
      Step-IsExclusive st (Reach-IsExclusive ctx _ none_yet r)
