-- ===== src/Runtime/Retry/Clamp.antt =====
-- The ceilings that chronon-core/src/models/job.rs sets to a job's knobs (`clamp_security_bounds` of
-- `RetryPolicy` and of `Job`).
use chronon.Base.{
  ℕ, ◌≤◌, min, max, Option, none, some, true, not, ◌||◌, ◌≡◌, refl, sym, subst, ◌⊎◌, inl, inr, ℤ,
  pos, negsuc, arith, eqb, get_or, if◌then◌else◌, Bool-cases,
}
use chronon.Model.Job.{Job}
use chronon.Runtime.Retry.{Float, RetryPolicy, default_retry_policy}

abbrev pub max_job_concurrency : ℕ
max_job_concurrency = 1_000

abbrev pub max_timeout_ms : ℕ
max_timeout_ms = 86_400_000

abbrev pub max_retry_attempts : ℕ
max_retry_attempts = 100

abbrev pub max_retry_delay_ms : ℕ
max_retry_delay_ms = 86_400_000

unfoldable pub clamp_retry_policy : {F : Type 0} → Float F → RetryPolicy F → RetryPolicy F
clamp_retry_policy float policy = record {
  max_attempts = min policy.max_attempts max_retry_attempts;
  base_delay_ms = min policy.base_delay_ms max_retry_delay_ms;
  backoff_multiplier =
      if not (float.is_finite policy.backoff_multiplier)
        || float.is_below_one policy.backoff_multiplier
      then float.of_u64 1
      else policy.backoff_multiplier;
  max_delay_ms =
      if eqb policy.max_delay_ms 0 then 0 else min policy.max_delay_ms max_retry_delay_ms;
}

-- `clamp(1, MAX_JOB_CONCURRENCY)`
unfoldable pub clamp_concurrency : ℤ → ℤ
clamp_concurrency (pos n) = pos (min (max n 1) max_job_concurrency)
clamp_concurrency (negsuc n) = pos 1

unfoldable pub clamp_timeout : Option ℤ → Option ℤ
clamp_timeout none = none
clamp_timeout (some (negsuc n)) = none
clamp_timeout (some (pos n)) = if eqb n 0 then none else some (pos (min n max_timeout_ms))

-- `decode` and `encode` are `serde_json` on a retry policy.
module _ {V F : Type 0} (float : Float F) (decode : V → Option (RetryPolicy F))
    (encode : RetryPolicy F → V) where
  unfoldable pub clamp_security_bounds : Job V → Job V
  clamp_security_bounds job = record job {
    concurrency = clamp_concurrency job.concurrency;
    timeout_ms = clamp_timeout job.timeout_ms;
    retry_policy_json = encode (
        clamp_retry_policy float
          (get_or (decode job.retry_policy_json) (default_retry_policy float)));
  }

  abbrev pub clamped_policy : Job V → RetryPolicy F
  clamped_policy job =
      get_or (decode (clamp_security_bounds job).retry_policy_json) (default_retry_policy float)

  -- The knobs of a job within their ceilings.
  abbrev pub IsBounded : Job V → RetryPolicy F → Type 0
  IsBounded job policy =
      ((n : ℕ) × (job.concurrency ≡ pos n) × (1 ≤ n) × (n ≤ max_job_concurrency))
      × ((job.timeout_ms ≡ none)
          ⊎ ((ms : ℕ) × (job.timeout_ms ≡ some (pos ms)) × (1 ≤ ms) × (ms ≤ max_timeout_ms)))
      × (policy.max_attempts ≤ max_retry_attempts)
      × (policy.base_delay_ms ≤ max_retry_delay_ms)
      × (policy.max_delay_ms ≤ max_retry_delay_ms)

  concurrency_range :
      (c : ℤ) → (n : ℕ) × (clamp_concurrency c ≡ pos n) × (1 ≤ n) × (n ≤ max_job_concurrency)
  unfolding clamp_concurrency
  concurrency_range (pos n) = (min (max n 1) max_job_concurrency, refl, omega arith, omega arith)
  concurrency_range (negsuc n) = (1, refl, omega arith, omega arith)

  timeout_range :
      (o : Option ℤ)
      → (clamp_timeout o ≡ none)
        ⊎ ((ms : ℕ) × (clamp_timeout o ≡ some (pos ms)) × (1 ≤ ms) × (ms ≤ max_timeout_ms))
  unfolding clamp_timeout
  timeout_range none = inl refl
  timeout_range (some (negsuc n)) = inl refl
  timeout_range (some (pos n)) = elim (Bool-cases (eqb n 0)) [
    | inl t ↦ inl (rw (t, clamp_timeout))
    | inr f ↦ inr (min n max_timeout_ms, rw (f, clamp_timeout), ground arith, ground arith)
  ]

  clamp-finite :
      float.is_finite (float.of_u64 1) ≡ true
      → (policy : RetryPolicy F)
      → float.is_finite (clamp_retry_policy float policy).backoff_multiplier ≡ true
  unfolding clamp_retry_policy
  clamp-finite one policy = ground (arith, one)

  abbrev AreCapped : RetryPolicy F → Type 0
  AreCapped policy =
      (policy.max_attempts ≤ max_retry_attempts)
      × (policy.base_delay_ms ≤ max_retry_delay_ms)
      × (policy.max_delay_ms ≤ max_retry_delay_ms)

  clamped-AreCapped : (policy : RetryPolicy F) → AreCapped (clamp_retry_policy float policy)
  unfolding clamp_retry_policy
  clamped-AreCapped policy = (omega arith, omega arith, ground arith)

  -- After the clamp a job allows between 1 and 1000 concurrent runs, has no timeout or one of 1 ms to
  -- 24 h, and its stored retry policy has at most 100 retries, a base delay of at most 24 h and no
  -- cap above 24 h; provided that 1.0 is finite and that JSON gives back a policy with a finite
  -- multiplier.
  pub clamp_security_bounds-IsBounded :
      (job : Job V)
      → float.is_finite (float.of_u64 1) ≡ true
      → ((policy : RetryPolicy F)
          → float.is_finite policy.backoff_multiplier ≡ true
          → decode (encode policy) ≡ some policy)
      → IsBounded (clamp_security_bounds job) (clamped_policy job)
  unfolding clamp_security_bounds
  clamp_security_bounds-IsBounded job one codec =
      let given : RetryPolicy F =
        get_or (decode job.retry_policy_json) (default_retry_policy float) in
      let read_back : get_or (decode (encode (clamp_retry_policy float given)))
            (default_retry_policy float)
          ≡ clamp_retry_policy float given =
        rw (codec (clamp_retry_policy float given) (clamp-finite one given)) in
      let capped : AreCapped (clamped_policy job) =
        subst AreCapped (sym read_back) (clamped-AreCapped given) in
      (
        concurrency_range job.concurrency,
        timeout_range job.timeout_ms,
        capped.0,
        capped.1,
        capped.2,
      )
