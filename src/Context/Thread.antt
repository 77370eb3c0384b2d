-- ===== src/Context/Thread.antt =====
-- flexo/src/lib.rs: the thread that `schedule` starts, from the attempts at its order to the end.
use flexo.Base.{
  ℕ, zero, suc, ◌<◌, ◌≤◌, Bool, ◌||◌, if◌then◌else◌, ◌⊎◌, ◌≡◌, refl, sym, ap, subst, ◌∙◌, true,
  false, List, [], ◌∷◌, map, Option, none, some, arith, contains, NotIn, Distinct,
  contains-remove_self, Bool-cases, inl, inr,
}
use flexo.Guards.{new_guards}
use flexo.Metrics.{ProviderIdentifier, ProviderIdentifier-discrete}
use flexo.Job.{Job, World}
use flexo.Order.{
  Shared, Others, Outcome, panicked, out_of_fuel, finished, num_max_attempts, try_until_success,
}
use flexo.Order.Selection.{identifiers}
use flexo.Order.Loop.{KeepProviders, try_until_success-Ends}
use flexo.Context.{JobContext, JobOutcome, check_duplicates, new_context, finish}
use flexo.Context.Threads.{finish-orders}

module _ (J : Job) where
  -- One of so many rounds panics.
  unfoldable pub panics_within : (ℕ → Bool) → ℕ → Bool
  panics_within panics zero = false
  panics_within panics (suc n) = panics (suc n) || panics_within panics n

  -- What follows the attempts: `none` is a panic of the thread, which leaves its order in progress. The
  -- rounds before a panic are those of the run, and no round follows it.
  unfoldable pub thread_end :
      (ℕ → Bool) → J.Order → Outcome J → JobContext J → Option (JobOutcome J × JobContext J)
  unfolding panics_within
  thread_end panics order panicked ctx = none
  thread_end panics order out_of_fuel ctx = none
  thread_end panics order (finished result run) ctx =
      if panics_within panics run.num_attempt
      then none
      else some (finish J order result (record ctx { shared = run.shared }))

  -- The thread, with the shared state that it starts from and the context in which its attempts end.
  -- `panics` says in which rounds a method of the job panics; the world has what the others answer.
  unfoldable pub run_thread :
      (ℕ → World J)
      → (ℕ → Bool)
      → Others J
      → J.Order
      → Option J.Provider
      → Shared J
      → JobContext J
      → Option (JobOutcome J × JobContext J)
  unfolding thread_end
  run_thread world panics others order custom_provider s ctx =
      thread_end panics order (try_until_success J world others order custom_provider s) ctx

  map-identifiers : (ps : List J.Provider) → identifiers J (new_guards ps) ≡ map J.identifier ps
  map-identifiers [] = refl
  map-identifiers (p ∷ ps) = ap (λ ids. J.identifier p ∷ ids) (map-identifiers ps)

  -- Identifiers that are not checked to be duplicates are distinct, and new.
  check_duplicates-Distinct :
      (ids : List ProviderIdentifier) (ps : List J.Provider)
      → check_duplicates J ids ps ≡ true
      → Distinct (map J.identifier ps)
        × ((id : ProviderIdentifier)
            → contains ProviderIdentifier-discrete id ids ≡ true
            → NotIn id (map J.identifier ps))
  unfolding check_duplicates contains
  check_duplicates-Distinct ids [] h = (tt, λ id e. tt)
  check_duplicates-Distinct ids (p ∷ ps) h =
      elim (Bool-cases (contains ProviderIdentifier-discrete (J.identifier p) ids)) [
        | inl twice ↦ cc (rw twice at h)
        | inr once ↦
            let id = J.identifier p in
            let (distinct, absent) = check_duplicates-Distinct (id ∷ ids) ps (rw once at h) in
            let new : contains ProviderIdentifier-discrete id (id ∷ ids) ≡ true = ground arith in
            ((absent id new, distinct), λ k e. (λ same. cc, absent k (ground arith)))
      ]

  new_context-Distinct :
      (ps : List J.Provider) (ctx : JobContext J)
      → new_context J ps ≡ some ctx
      → (identifiers J ctx.shared.guards ≡ map J.identifier ps) × Distinct (map J.identifier ps)
  unfolding new_context
  new_context-Distinct ps ctx h = elim (Bool-cases (check_duplicates J [] ps)) [
    | inr twice ↦ cc (rw twice at h)
    | inl once ↦
        let made : new_guards ps ≡ ctx.shared.guards = cc (rw once at h) in
        (
          ap (identifiers J) (sym made) ∙ map-identifiers ps,
          (check_duplicates-Distinct [] ps once).0,
        )
  ]

  panics_within-true :
      (panics : ℕ → Bool) (k : ℕ)
      → panics_within panics k ≡ true
      → (n : ℕ) × (0 < n) × (n ≤ k) × (panics n ≡ true)
  unfolding panics_within
  panics_within-true panics zero h = cc
  panics_within-true panics (suc k) h = elim (Bool-cases (panics (suc k))) [
    | inl now ↦ (suc k, omega arith, omega arith, now)
    | inr later ↦
        let (n, pos, le, e) = panics_within-true panics k (rw later at h) in
        (n, pos, omega (arith, le), e)
  ]

  module _ (world : ℕ → World J) (panics : ℕ → Bool) (others : Others J) (order : J.Order)
      (s : Shared J) (ctx : JobContext J) where
    -- The thread ends with an outcome, and its order is not in progress afterwards.
    pub record IsOver : Type 0 where
      pub outcome : JobOutcome J
      pub after : JobContext J
      pub is : run_thread world panics others order none s ctx ≡ some (outcome, after)
      pub released : contains J.Order-discrete order after.orders_in_progress ≡ false

    -- The thread panics, because a method of the job does in one of the first 25 rounds.
    pub record IsDead : Type 0 where
      pub round : ℕ
      pub first : 0 < round
      pub last : round ≤ num_max_attempts
      pub dies : panics round ≡ true
      pub is : run_thread world panics others order none s ctx ≡ none

  -- A job context that was made for some providers, and that still has them when an order is scheduled:
  -- the thread of the order ends with an outcome, and the order can be scheduled again, or else a method of
  -- the job itself panics in one of the first 25 rounds. This is so whatever the mirrors answer and whatever
  -- other threads do that leave the providers alone.
  pub run_thread-IsOver :
      (world : ℕ → World J) (panics : ℕ → Bool) (others : Others J) (order : J.Order)
      (p : J.Provider) (ps : List J.Provider) (ctx : JobContext J) (s : Shared J)
      (later : JobContext J)
      → new_context J (p ∷ ps) ≡ some ctx
      → identifiers J s.guards ≡ identifiers J ctx.shared.guards
      → KeepProviders J world others order
      → IsOver world panics others order s later ⊎ IsDead world panics others order s later
  unfolding run_thread thread_end
  run_thread-IsOver world panics others order p ps ctx s later made same keep =
      let (ids, distinct) = new_context-Distinct (p ∷ ps) ctx made in
      let known = same ∙ ids in
      let e =
        try_until_success-Ends J world others order s (subst Distinct (sym known) distinct)
          (rw known (omega arith)) keep in
      let ctx' : JobContext J = record later { shared = e.run.shared } in
      let done = finish J order e.result ctx' in
      elim (Bool-cases (panics_within panics e.run.num_attempt)) [
        | inr none_panics ↦ inl (record {
          outcome = done.0;
          after = done.1;
          is = rw e.is (rw none_panics refl);
          released =
              rw (finish-orders J order e.result ctx')
                (contains-remove_self J.Order-discrete order later.orders_in_progress);
        })
        | inl one_panics ↦
            let (n, pos, le, dies) = panics_within-true panics e.run.num_attempt one_panics in
            inr (record {
              round = n;
              first = pos;
              last = omega (arith, le, e.few_max);
              dies = dies;
              is = rw e.is (rw one_panics refl);
            })
      ]
