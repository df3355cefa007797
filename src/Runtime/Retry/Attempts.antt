-- ===== src/Runtime/Retry/Attempts.antt =====
-- How often and when a failed run is tried again (chronon-runtime/src/retry.rs and the retry policy
-- of chronon-core/src/models/job.rs).
use chronon.Base.{
  ℕ, suc, ◌≤◌, Option, none, some, true, String, ◌≡◌, refl, sym, subst, ◌⊎◌, inl, inr, Instant, ℤ,
  pos, negsuc, arith, lookup, insert, plus_millis, Bool-cases, ◌+ℤ◌,
}
use chronon.Model.Error.{ok, Exit, returned, panicked}
use chronon.Model.Job.{Job}
use chronon.Model.Run
use chronon.Model.Run.{Run, for_job, new_run, fail}
use chronon.Model.Status.{RunStatus, queued, failed}
use chronon.Mem.State.{Store}
use chronon.Mem.Port.{mem_store}
use chronon.Mem.Runs.{update_run, create_run}
use chronon.Mem.Runs.Renew.{update_run-Updates}
use chronon.Sanitize.{safe_message}
use chronon.Runtime.Retry.{
  Failures, Float, RetryPolicy, CapturedLogs, should_retry, delay_ms_after, signed_delay,
  next_attempt, with_failure_logs, failed_run, policy_of, retry_run, after_failure_stored,
  finalize_with, finalize_failed_run,
}

module _ {V F : Type 0} (env : Failures V F) (utc : ℕ → Instant) (next_id : String) (run : Run V)
    (job : Job V) (status : RunStatus) (message : String) (logs : Option CapturedLogs)
    (s : Store V) where
  -- The run as the failure leaves it.
  abbrev pub ended : Run V
  ended = failed_run env (utc 1) run status message logs

  abbrev pub policy : RetryPolicy F
  policy = policy_of env job

  abbrev pub after : Store V
  after = record s { runs = insert ended.run_id ended s.runs }

  abbrev pub retry : Run V
  retry = retry_run env next_id (utc 3) policy ended

  -- The failure is stored and no run is added; or the attempt was one of the policy's, and a run with
  -- the next number is queued, no later than the policy's longest delay, if it sets one.
  abbrev pub Finalizes : Store V → Type 0
  Finalizes t =
      ((ended.status ≡ failed) ⊎ (ended.status ≡ RunStatus.timeout))
      × ((t ≡ after)
          ⊎ ((n : ℕ) × (run.attempt ≡ pos n)
              × (1 ≤ n)
              × (n ≤ policy.max_attempts)
              × (t ≡ record after { runs = insert next_id retry after.runs })
              × (retry.status ≡ queued)
              × ((n ≡ 2_147_483_647) ⊎ (retry.attempt ≡ pos (suc n)))
              × (delay : ℕ) × (retry.scheduled_for ≡ plus_millis (utc 3) delay)
              × ((policy.max_delay_ms ≡ 0) ⊎ (delay ≤ policy.max_delay_ms))))

pub failed_run-keeps :
    {V F : Type 0} (env : Failures V F) (now : Instant) (run : Run V) (status : RunStatus)
    (message : String) (logs : Option CapturedLogs)
    → ((failed_run env now run status message logs).run_id ≡ run.run_id)
      × ((failed_run env now run status message logs).attempt ≡ run.attempt)
      × (((failed_run env now run status message logs).status ≡ failed)
          ⊎ ((failed_run env now run status message logs).status ≡ RunStatus.timeout))
unfolding failed_run with_failure_logs fail Run.timeout
failed_run-keeps env now run RunStatus.timeout message none = (refl, refl, inr refl)
failed_run-keeps env now run RunStatus.timeout message (some logs) = (refl, refl, inr refl)
failed_run-keeps env now run _ message none = (refl, refl, inl refl)
failed_run-keeps env now run _ message (some logs) = (refl, refl, inl refl)

should_retry_range :
    {F : Type 0} (policy : RetryPolicy F) (attempt : ℤ)
    → should_retry policy attempt ≡ true
    → (n : ℕ) × (attempt ≡ pos n) × (1 ≤ n) × (n ≤ policy.max_attempts)
unfolding should_retry
should_retry_range policy (pos n) h = (n, refl, ground arith, ground arith)
should_retry_range policy (negsuc n) h = ground (arith, h)

delay_capped :
    {F : Type 0} (float : Float F) (policy : RetryPolicy F) (attempt : ℤ)
    → (policy.max_delay_ms ≡ 0)
      ⊎ (signed_delay (delay_ms_after float policy attempt) ≤ policy.max_delay_ms)
unfolding signed_delay delay_ms_after
delay_capped float policy attempt = ground arith

next_attempt-suc : (n : ℕ) → (n ≡ 2_147_483_647) ⊎ (next_attempt (pos n) ≡ pos (suc n))
unfolding next_attempt ◌+ℤ◌
next_attempt-suc n = ground arith

module _ {V F : Type 0} (env : Failures V F) (utc : ℕ → Instant) (next_id : String) (run : Run V)
    (job : Job V) (status : RunStatus) (message : String) (logs : Option CapturedLogs)
    (s : Store V) where
  abbrev failed_one : Run V
  failed_one = ended env utc next_id run job status message logs s

  abbrev stored_failure : Store V
  stored_failure = after env utc next_id run job status message logs s

  failure_stored :
      (old : Run V)
      → lookup run.run_id s.runs ≡ some old
      → update_run failed_one s ≡ (ok tt, stored_failure)
  failure_stored old e = elim (update_run-Updates failed_one s) [
    | inl (none_there, _) ↦
        ground (arith, e, (failed_run-keeps env (utc 1) run status message logs).0)
    | inr (_, _, o) ↦ o
  ]

  retried-Finalizes :
      Finalizes env utc next_id run job status message logs s
        (after_failure_stored env (mem_store V) utc next_id failed_one job (ok tt) stored_failure).1
  unfolding after_failure_stored create_run retry_run for_job new_run
  retried-Finalizes =
      let kept = failed_run-keeps env (utc 1) run status message logs in
      elim (Bool-cases (should_retry (policy_of env job) failed_one.attempt)) [
        | inr f ↦ (kept.2, inl (rw (f, after_failure_stored)))
        | inl t ↦
            let (n, at, low, high) = should_retry_range (policy_of env job) failed_one.attempt t in
            let delay : ℕ =
              signed_delay (delay_ms_after env.float (policy_of env job) failed_one.attempt) in
            let numbered : (n ≡ 2_147_483_647) ⊎ (next_attempt failed_one.attempt ≡ pos (suc n)) =
              subst (λ x. (n ≡ 2_147_483_647) ⊎ (next_attempt x ≡ pos (suc n))) (sym at)
                (next_attempt-suc n) in
            (
              kept.2,
              inr (
                n,
                ground (arith, at, kept.1),
                low,
                high,
                rw (t, after_failure_stored),
                refl,
                numbered,
                delay,
                refl,
                delay_capped env.float (policy_of env job) failed_one.attempt,
              ),
            )
      ]

  finalize_with-Finalizes :
      (old : Run V)
      → lookup run.run_id s.runs ≡ some old
      → Finalizes env utc next_id run job status message logs s
          (finalize_with env (mem_store V) utc next_id run job status logs (some message) s).1
  unfolding finalize_with
  finalize_with-Finalizes old e =
      subst
        (λ o.
          Finalizes env utc next_id run job status message logs s
            (after_failure_stored env (mem_store V) utc next_id failed_one job o.0 o.1).1)
        (sym (failure_stored old e)) retried-Finalizes

module _ {V F : Type 0} (env : Failures V F) (utc : ℕ → Instant) (next_id : String) (run : Run V)
    (job : Job V) (status : RunStatus) (error : String) (logs : Option CapturedLogs)
    (s : Store V) where
  -- The rewriting of the message panics, and nothing is stored; or the run is stored as an end with
  -- the message as it was rewritten, and is tried again or not.
  abbrev pub FinalizesOrPanics : Exit × Store V → Type 0
  FinalizesOrPanics out =
      ((safe_message error ≡ none) × (out ≡ (panicked, s)))
      ⊎ ((message : String) × (safe_message error ≡ some message)
          × (out.0 ≡ returned)
          × Finalizes env utc next_id run job status message logs s out.1)

  safe-Finalizes :
      (o : Option String) (old : Run V)
      → safe_message error ≡ o
      → lookup run.run_id s.runs ≡ some old
      → FinalizesOrPanics (finalize_with env (mem_store V) utc next_id run job status logs o s)
  unfolding finalize_with
  safe-Finalizes none old m e = inl (m, refl)
  safe-Finalizes (some message) old m e = inr (
    message,
    m,
    refl,
    finalize_with-Finalizes env utc next_id run job status message logs s old e,
  )

  -- The failure of a stored run panics and changes nothing, exactly where the rewriting of its message
  -- panics. Else the run is stored as an end, with the rewritten message. No run is added then; or the
  -- attempt was one of those that the policy allows, and exactly one run is queued, with the next
  -- number (below 2 ^ 31) and after a delay that keeps to the policy's cap, where it has one.
  pub finalize_failed_run-Finalizes :
      (old : Run V)
      → lookup run.run_id s.runs ≡ some old
      → FinalizesOrPanics
          (finalize_failed_run env (mem_store V) utc next_id run job status error logs s)
  unfolding finalize_failed_run
  finalize_failed_run-Finalizes old e = safe-Finalizes (safe_message error) old refl e
