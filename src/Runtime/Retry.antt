-- ===== src/Runtime/Retry.antt =====
-- chronon-runtime/src/retry.rs, the retry policy of chronon-core/src/models/job.rs and the captured
-- logs of chronon-telemetry/src/log_capture.rs. The operations on `f64` and `str::contains` are
-- parameters.
pub mod Attempts
pub mod Clamp
use Prim.Native.String.{◌++◌ as append}
use chronon.Base.{
  ℕ, ◌-◌, min, Option, none, some, Bool, true, false, ◌&&◌, String, Instant, ℤ, pos, negsuc, ◌+ℤ◌,
  leb, ltb, eqb, get_or, plus_millis, is_empty_text, if◌then◌else◌,
}
use chronon.Model.Error.{Result, ok, err, Io, ◌>>=◌, pure, Exit, returned, panicked}
use chronon.Model.Job.{Job}
use chronon.Model.Run
use chronon.Model.Run.{Run, Json, for_job, fail}
use chronon.Model.Status.{RunStatus}
use chronon.Port.{SchedulerStore}
use chronon.Sanitize.{safe_message}

-- `to_u64` is `x.min(u64::MAX as f64) as u64`.
pub record Float (F : Type 0) : Type 0 where
  pub of_u64 : ℕ → F
  pub times : F → F → F
  pub powi : F → ℕ → F
  pub is_finite : F → Bool
  pub is_positive : F → Bool
  pub is_below_one : F → Bool
  pub to_u64 : F → ℕ

pub record RetryPolicy (F : Type 0) : Type 0 where
  pub max_attempts : ℕ
  pub base_delay_ms : ℕ
  pub backoff_multiplier : F
  pub max_delay_ms : ℕ

-- `failed_attempt.saturating_sub(1).max(0)`
abbrev exponent : ℤ → ℕ
exponent (pos n) = n - 1
exponent (negsuc n) = 0

-- `RetryPolicy::default()`
abbrev pub default_retry_policy : {F : Type 0} → Float F → RetryPolicy F
default_retry_policy float = record {
  max_attempts = 0;
  base_delay_ms = 0;
  backoff_multiplier = float.of_u64 1;
  max_delay_ms = 0;
}

module _ {F : Type 0} where
  unfoldable pub should_retry : RetryPolicy F → ℤ → Bool
  should_retry policy (pos attempt) = leb 1 attempt && leb attempt policy.max_attempts
  should_retry policy (negsuc n) = false

  unfoldable pub delay_ms_after : Float F → RetryPolicy F → ℤ → ℕ
  delay_ms_after float policy failed_attempt =
      let raw =
        float.times (float.of_u64 policy.base_delay_ms)
          (float.powi policy.backoff_multiplier (exponent failed_attempt)) in
      let ms = if float.is_finite raw && float.is_positive raw then float.to_u64 raw else 0 in
      if eqb policy.max_delay_ms 0 then ms else min ms policy.max_delay_ms

-- `(ms as i64).max(0)`: a delay of 2 ^ 63 ms or more becomes negative, and then 0.
unfoldable pub signed_delay : ℕ → ℕ
signed_delay ms = if ltb ms 9_223_372_036_854_775_808 then ms else 0

-- `attempt + 1` in 32 bits.
unfoldable pub next_attempt : ℤ → ℤ
next_attempt (pos n) = if eqb n 2_147_483_647 then negsuc 2_147_483_647 else pos n +ℤ pos 1
next_attempt (negsuc n) = negsuc n +ℤ pos 1

pub record CapturedLogs : Type 0 where
  pub stdout_text : Option String
  pub stderr_text : Option String

unfoldable pub ensure_stderr_message :
    (String → String → Bool) → String → CapturedLogs → CapturedLogs
ensure_stderr_message contains message logs =
    if is_empty_text message then logs else elim logs.stderr_text [
      | none ↦ record logs { stderr_text = some message }
      | some existing ↦
          if is_empty_text existing
          then record logs { stderr_text = some message }
          else if contains existing message
          then logs
          else record logs { stderr_text = some (append existing (append "\n" message)) }
    ]

-- What the failure handlers are given besides the store.
pub record Failures (V F : Type 0) : Type 0 where
  pub json : Json V
  pub float : Float F
  pub retry_policy : V → Option (RetryPolicy F)
  pub contains : String → String → Bool

module _ {V F : Type 0} (env : Failures V F) where
  unfoldable pub with_failure_logs : String → Option CapturedLogs → Run V → Run V
  with_failure_logs message none run = record run { stderr_text = some message }
  with_failure_logs message (some logs) run =
      let captured = ensure_stderr_message env.contains message logs in
      record run { stdout_text = captured.stdout_text; stderr_text = captured.stderr_text }

  -- `match status`: a timeout is recorded as such, anything else as a failure.
  unfoldable pub failed_run : Instant → Run V → RunStatus → String → Option CapturedLogs → Run V
  failed_run now run RunStatus.timeout message logs =
      with_failure_logs message logs (Run.timeout env.json run message now)
  failed_run now run _ message logs = with_failure_logs message logs (fail env.json run message now)

  unfoldable pub policy_of : Job V → RetryPolicy F
  policy_of job = get_or (env.retry_policy job.retry_policy_json) (default_retry_policy env.float)

  unfoldable pub retry_run : String → Instant → RetryPolicy F → Run V → Run V
  retry_run run_id now policy run =
      record (for_job env.json run_id (get_or run.job_id "") run.script_name
        (plus_millis now (signed_delay (delay_ms_after env.float policy run.attempt)))) {
          attempt = next_attempt run.attempt;
          actor_json = run.actor_json;
          params_json = run.params_json;
          pool_id = run.pool_id;
          placement_json = run.placement_json;
          parent_run_id = run.parent_run_id;
          root_run_id = run.root_run_id;
        }

module _ {V S F : Type 0} (env : Failures V F) (db : SchedulerStore V S) where
  unfoldable pub after_failure_stored :
      (ℕ → Instant) → String → Run V → Job V → Result (Unit {0}) → Io S (Unit {0})
  after_failure_stored utc next_id run job (err e) = pure tt
  after_failure_stored utc next_id run job (ok _) =
      elim (should_retry (policy_of env job) run.attempt) [
        | false ↦ pure tt
        | true ↦ do
          created ← db.create_run (utc 4) (retry_run env next_id (utc 3) (policy_of env job) run)
          pure tt
      ]

  -- From the rewritten message on, if the rewriting does not panic.
  unfoldable pub finalize_with :
      (ℕ → Instant)
      → String
      → Run V
      → Job V
      → RunStatus
      → Option CapturedLogs
      → Option String
      → Io S Exit
  finalize_with utc next_id run job status logs none = pure panicked
  finalize_with utc next_id run job status logs (some message) = do
    updated ← db.update_run (utc 2) (failed_run env (utc 1) run status message logs)
    retried ←
        after_failure_stored utc next_id (failed_run env (utc 1) run status message logs) job
          updated
    pure returned

  unfoldable pub finalize_failed_run :
      (ℕ → Instant) → String → Run V → Job V → RunStatus → String → Option CapturedLogs → Io S Exit
  unfolding safe_message
  finalize_failed_run utc next_id run job status error logs =
      finalize_with utc next_id run job status logs (safe_message error)
