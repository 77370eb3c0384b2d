-- ===== src/Order/Loop.antt =====
-- Order::try_until_success in flexo/src/lib.rs: all rounds of the retry loop, for an order without a
-- provider of its own.
use flexo.Base.{
  ℕ, zero, suc, ◌+◌, ◌≤◌, ◌<◌, ◌≡◌, refl, ◌∙◌, true, false, List, Option, none, some, arith, length,
  Distinct, Bool-cases, inl, inr,
}
use flexo.Metrics.{ProviderIdentifier}
use flexo.Job.{Job, JobResult, World}
use flexo.Order.{
  Shared, Run, Guarded, Others, Attempt, Outcome, panicked, finished, num_max_attempts,
  select_provider, attempt, try_loop, pardon_unless_success, first_run, try_until_success,
}
use flexo.Order.Selection.{identifiers, count_eligible-nil}
use flexo.Order.Attempts.{selected, KeepsProviders, after, after-num_attempt, after-stop}
use flexo.Order.Rounds.{last_chance-eq-false, select_exists, Inv, Done, after-Done, after-Inv}

module _ (J : Job) (world : ℕ → World J) (others : Others J) (order : J.Order) where
  -- Other threads leave the list of providers alone: it never changes after start-up.
  abbrev pub KeepProviders : Type 0
  KeepProviders =
      ((n : ℕ) → KeepsProviders J (others.before_select n))
      × ((n : ℕ) → KeepsProviders J (others.during_job n))

  -- The loop has ended with a result; every provider that it tried was tried once, so that there were
  -- no more attempts than providers.
  pub record Ends (ids : List ProviderIdentifier) (out : Outcome J) : Type 0 where
    pub result : JobResult J
    pub run : Run J
    pub is : out ≡ finished result run
    pub few : run.num_attempt ≤ length ids
    pub few_max : run.num_attempt ≤ num_max_attempts
    pub once : Distinct (selected run.messages)
    pub counted : length (selected run.messages) ≡ run.num_attempt

  pub attempt_of_select :
      (custom : Option J.Provider) (r : Run J) {g : Guarded J}
      → select_provider J order custom r.unsuccessful_providers
          (others.before_select (r.num_attempt + 1) r.shared)
        ≡ some g
      → attempt J world others order custom r
        ≡ some
            (after J (world (r.num_attempt + 1)) (others.during_job (r.num_attempt + 1)) order r g)
  unfolding attempt
  attempt_of_select custom r e = rw (e, attempt)

  pub try_loop_stop :
      (custom : Option J.Provider) (fuel : ℕ) (r : Run J) (a : Attempt J)
      → attempt J world others order custom r ≡ some a
      → a.stop ≡ true
      → try_loop J world others order custom (suc fuel) r
        ≡ finished a.result (pardon_unless_success J world others order custom a.result a.run)
  unfolding try_loop
  try_loop_stop custom fuel r a e h = rw (e, try_loop) (rw h)

  pub try_loop_go :
      (custom : Option J.Provider) (fuel : ℕ) (r : Run J) (a : Attempt J)
      → attempt J world others order custom r ≡ some a
      → a.stop ≡ false
      → try_loop J world others order custom (suc fuel) r
        ≡ try_loop J world others order custom fuel a.run
  unfolding try_loop
  try_loop_go custom fuel r a e h = rw (e, try_loop) (rw h)

  pub try_loop_panic :
      (custom : Option J.Provider) (fuel : ℕ) (r : Run J)
      → select_provider J order custom r.unsuccessful_providers
          (others.before_select (r.num_attempt + 1) r.shared)
        ≡ none
      → try_loop J world others order custom (suc fuel) r ≡ panicked
  unfolding try_loop attempt
  try_loop_panic custom fuel r e = rw (e, attempt, try_loop)

  pub pardon-fields :
      (custom : Option J.Provider) (result : JobResult J) (r : Run J)
      → ((pardon_unless_success J world others order custom result r).num_attempt ≡ r.num_attempt)
        × ((pardon_unless_success J world others order custom result r).messages ≡ r.messages)
  unfolding pardon_unless_success
  pardon-fields custom result r = ground arith

  stopped-Ends :
      (ids : List ProviderIdentifier) (result : JobResult J) (r : Run J)
      → r.num_attempt ≤ num_max_attempts
      → Done J order ids r
      → Ends ids (finished result (pardon_unless_success J world others order none result r))
  stopped-Ends ids result r max d =
      let (n, m) = pardon-fields none result r in
      record {
        result = result;
        run = pardon_unless_success J world others order none result r;
        is = refl;
        few = rw n d.few;
        few_max = rw n max;
        once = rw m d.once;
        counted = rw (m, n) d.counted;
      }

  try_loop-Ends :
      (ids : List ProviderIdentifier) (fuel : ℕ) (r : Run J)
      → Distinct ids
      → KeepProviders
      → fuel + r.num_attempt ≡ num_max_attempts
      → r.num_attempt < num_max_attempts
      → Inv J order ids r
      → Ends ids (try_loop J world others order none fuel r)
  try_loop-Ends ids zero r distinct keep f lt inv = absurd (omega arith)
  try_loop-Ends ids (suc fuel) r distinct keep f lt inv =
      let n = r.num_attempt + 1 in
      let s = others.before_select n r.shared in
      let at : identifiers J s.guards ≡ ids = keep.0 n r.shared ∙ inv.same in
      let (g, e, p) = select_exists J order r.unsuccessful_providers s (rw at inv.some_left) in
      let a = after J (world n) (others.during_job n) order r g in
      let num : a.run.num_attempt ≡ n =
        after-num_attempt J (world n) (others.during_job n) order r g in
      let done = after-Done J order ids (world n) (others.during_job n) r g s inv p in
      let tried = attempt_of_select none r e in
      elim (Bool-cases a.stop) [
        | inl stop ↦
            rw (try_loop_stop none fuel r a tried stop)
              (stopped-Ends ids a.result a.run (omega arith) done)
        | inr go ↦
            let last =
              last_chance-eq-false J order _ _
                (after-stop J (world n) (others.during_job n) order r g go) in
            rw (try_loop_go none fuel r a tried go) (
              try_loop-Ends ids fuel a.run distinct keep (omega arith) (omega (arith, last.0, num))
                (after-Inv J order ids (world n) (others.during_job n) r g s distinct (keep.1 n) at
                  inv p go))
      ]

  -- An order without a custom provider always ends with a result, if there is a provider, the
  -- identifiers are distinct and no thread changes the list of providers: the thread never panics for
  -- want of a provider. It makes no more attempts than there are providers and than 25, and tries no
  -- provider twice.
  pub try_until_success-Ends :
      (s : Shared J)
      → Distinct (identifiers J s.guards)
      → 0 < length (identifiers J s.guards)
      → KeepProviders
      → Ends (identifiers J s.guards) (try_until_success J world others order none s)
  unfolding try_until_success
  try_until_success-Ends s distinct pos keep =
      let ids = identifiers J s.guards in
      try_loop-Ends ids num_max_attempts (first_run J world others order none s) distinct keep
        (omega arith) (omega arith)
        (record {
          same = refl;
          some_left = omega (arith, count_eligible-nil ids);
          left = omega (arith, count_eligible-nil ids);
          tried = tt;
          once = tt;
          counted = refl;
        })
