-- ===== src/Mirrors/Fetch.antt =====
-- The attempts at fetching.
use flexo.Base.{ℕ, zero, suc, ◌+◌, ◌-◌, ◌≤◌, ◌<◌, ◌≡◌, refl, ap, ◌∙◌, dec_lt, arith, inl, inr, ◌⊎◌}
use flexo.Job.{Result, ok, err}
use flexo.Mirrors.{retry, try_num_attempts}

-- A result of at most so many calls from the n-th on: that of the first that does not fail, or the error of
-- the last.
pub record IsFirst {A E : Type 0} (action : ℕ → Result A E) (n left : ℕ) (r : Result A E)
    : Type 0 where
  pub at : ℕ
  pub within : (n ≤ at) × (at ≤ n + left)
  pub answer : action at ≡ r
  pub failed_before : (k : ℕ) → n ≤ k → k < at → (e : E) × (action k ≡ err e)
  pub stopped : (at ≡ n + left) ⊎ ((a : A) × (r ≡ ok a))

later-IsFirst :
    {A E : Type 0} (action : ℕ → Result A E) (left n : ℕ) (e : E) (r : Result A E)
    → action n ≡ err e
    → IsFirst action (n + 1) left r
    → IsFirst action n (suc left) r
later-IsFirst action left n e r failed f =
    let (lo, hi) = f.within in
    record {
      at = f.at;
      within = (omega (arith, lo), omega (arith, hi));
      answer = f.answer;
      failed_before = λ k from to. elim (dec_lt n k) [
        | yes after ↦ f.failed_before k (omega (arith, after)) to
        | no not_after ↦ (e, ap action (omega (arith, not_after, from)) ∙ failed)
      ];
      stopped = elim f.stopped [ inl all ↦ inl (omega (arith, all)) | inr good ↦ inr good ];
    }

called-IsFirst :
    {A E : Type 0} (action : ℕ → Result A E) (left n : ℕ) (rest r : Result A E)
    → action n ≡ r
    → IsFirst action (n + 1) left rest
    → IsFirst action n (suc left) (elim r [ ok a ↦ ok a | err e ↦ rest ])
called-IsFirst action left n rest (ok a) same f = record {
  at = n;
  within = (omega arith, omega arith);
  answer = same;
  failed_before = λ k lo hi. absurd (omega (arith, lo, hi));
  stopped = inr (a, refl);
}
called-IsFirst action left n rest (err e) same f = later-IsFirst action left n e rest same f

retry-IsFirst :
    {A E : Type 0} (action : ℕ → Result A E) (left n : ℕ)
    → IsFirst action n left (retry action left n)
unfolding retry
retry-IsFirst action zero n = record {
  at = n;
  within = (omega arith, omega arith);
  answer = refl;
  failed_before = λ k lo hi. absurd (omega (arith, lo, hi));
  stopped = inl (omega arith);
}
retry-IsFirst action (suc left) n =
    called-IsFirst action left n (retry action left (n + 1)) (action n) refl
      (retry-IsFirst action left (n + 1))

-- The action is called until it does not fail, and at most so often as allowed: the result is that of
-- the first call without a failure, or that of the last call allowed.
pub try_num_attempts-IsFirst :
    {A E : Type 0} (max_num_attempts : ℕ) (action : ℕ → Result A E)
    → 0 < max_num_attempts
    → IsFirst action 0 (max_num_attempts - 1) (try_num_attempts max_num_attempts action)
unfolding try_num_attempts
try_num_attempts-IsFirst max_num_attempts action pos = retry-IsFirst action (max_num_attempts - 1) 0
