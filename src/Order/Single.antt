-- ===== src/Order/Single.antt =====
-- Order::try_until_success in flexo/src/lib.rs, for an order with a provider of its own.
use flexo.Base.{ℕ, suc, ◌≡◌, refl, ap, ◌∙◌, true, [], ◌∷◌, none, some, Bool-cases, inl, inr}
use flexo.Job.{Job, JobResult, World}
use flexo.Order.{
  Shared, Run, Guarded, Others, Outcome, finished, select_provider, try_loop, pardon_unless_success,
  first_run, try_until_success,
}
use flexo.Order.Attempts.{selected, after, after-num_attempt, after-selected, after-stop}
use flexo.Order.Rounds.{last_chance-eq-false}
use flexo.Order.Loop.{attempt_of_select, try_loop_stop, pardon-fields}

module _ (J : Job) (world : ℕ → World J) (others : Others J) (order : J.Order) where
  -- One round, with one attempt, serves an order by one provider.
  pub record OnlyRound (p : J.Provider) (out : Outcome J) : Type 0 where
    pub result : JobResult J
    pub run : Run J
    pub is : out ≡ finished result run
    pub tried : selected run.messages ≡ J.identifier p ∷ []
    pub attempts : run.num_attempt ≡ 1

  custom-OnlyRound :
      (p : J.Provider) (fuel : ℕ) (s : Shared J)
      → OnlyRound p (
          try_loop J world others order
            (some p)
            (suc fuel)
            (first_run J world others order (some p) s))
  unfolding select_provider
  custom-OnlyRound p fuel s =
      let r = first_run J world others order (some p) s in
      let g : Guarded J = record {
        index = none;
        provider = p;
        is_last_provider = true;
        shared = others.before_select 1 s;
      } in
      let a = after J (world 1) (others.during_job 1) order r g in
      let (num, msgs) = pardon-fields J world others order (some p) a.result a.run in
      elim (Bool-cases a.stop) [
        | inl stop ↦
            rw
              (try_loop_stop J world others order (some p) fuel r a
                (attempt_of_select J world others order (some p) r refl) stop)
              (record {
                result = a.result;
                run = pardon_unless_success J world others order (some p) a.result a.run;
                is = refl;
                tried =
                    ap selected msgs ∙ after-selected J (world 1) (others.during_job 1) order r g;
                attempts = num ∙ after-num_attempt J (world 1) (others.during_job 1) order r g;
              })
        | inr go ↦
            cc
              (last_chance-eq-false J order _ _
                (after-stop J (world 1) (others.during_job 1) order r g go)).1
      ]

  -- With a custom provider the order ends with the result of a single attempt, at that provider.
  pub try_until_success-custom :
      (p : J.Provider) (s : Shared J)
      → OnlyRound p (try_until_success J world others order (some p) s)
  unfolding try_until_success
  try_until_success-custom p s = custom-OnlyRound p 24 s
