-- ===== src/Runtime/Events.antt =====
-- chronon-runtime/src/events.rs: what the events of the executor do to the run rows.
pub mod Steps
pub mod Settled
use chronon.Base.{ℕ, Option, none, some, Bool, true, false, String, Instant, ℤ}
use chronon.Model.Error.{Result, Io, ◌>>=◌, pure, flatten_ok, Exit, returned, panicked}
use chronon.Model.Job.{Job}
use chronon.Model.Run.{Run, complete, fail}
use chronon.Model.Status.{RunStatus, queued, claimed, running, failed}
use chronon.Port.{SchedulerStore}
use chronon.Sanitize.{safe_message}
use chronon.Runtime.Retry.{Failures, CapturedLogs, ensure_stderr_message, finalize_failed_run}

-- chronon-executor/src/lib.rs
pub data ExecutorEvent : Type 0 where
  run_started : String → ExecutorEvent
  run_completed : String → ℤ → CapturedLogs → ExecutorEvent
  run_failed : String → String → CapturedLogs → ExecutorEvent

-- `matches!(status, Queued | Claimed)` and `status == Running`
abbrev pub is_startable : RunStatus → Bool
is_startable queued = true
is_startable claimed = true
is_startable _ = false

abbrev pub is_running : RunStatus → Bool
is_running running = true
is_running _ = false

abbrev or_else {ℓ} : {A : Type ℓ} → Option A → Option A → Option A
or_else none d = d
or_else (some a) d = some a

unfoldable pub apply_logs : {V : Type 0} → CapturedLogs → Run V → Run V
apply_logs logs run = record run {
  stdout_text = or_else logs.stdout_text run.stdout_text;
  stderr_text = or_else logs.stderr_text run.stderr_text;
}

module _ {V F : Type 0} (env : Failures V F) where
  unfoldable pub started_run : Instant → Run V → Run V
  started_run now run = record run { started_at = some now; status = running }

  unfoldable pub completed_run : Instant → ℤ → CapturedLogs → Run V → Run V
  completed_run now duration_ms logs run =
      apply_logs logs (record (complete run now) { duration_ms = some duration_ms })

  -- A failed run whose job is gone, with the rewritten message.
  unfoldable pub orphan_run : Instant → String → CapturedLogs → Run V → Run V
  orphan_run now message logs run =
      apply_logs (ensure_stderr_message env.contains message logs) (fail env.json run message now)

module _ {V S F : Type 0} (env : Failures V F) (db : SchedulerStore V S) where
  unfoldable pub store_logged : Instant → Run V → Io S Exit
  store_logged utc run = do updated ← db.update_run utc run; pure returned

  -- Where the rewriting of the message panics, nothing is stored.
  unfoldable pub fail_orphan : (ℕ → Instant) → Run V → CapturedLogs → Option String → Io S Exit
  fail_orphan utc run logs none = pure panicked
  fail_orphan utc run logs (some message) =
      store_logged (utc 2) (orphan_run env (utc 1) message logs run)

  unfoldable pub fail_with_job :
      (ℕ → Instant) → String → Run V → String → CapturedLogs → Option (Job V) → Io S Exit
  unfolding safe_message
  fail_with_job utc next_id run error logs none = fail_orphan utc run logs (safe_message error)
  fail_with_job utc next_id run error logs (some job) =
      finalize_failed_run env db utc next_id run job failed error (some logs)

  unfoldable pub fail_running :
      (ℕ → Instant) → String → Run V → String → CapturedLogs → Option String → Io S Exit
  fail_running utc next_id run error logs none = fail_with_job utc next_id run error logs none
  fail_running utc next_id run error logs (some job_id) = do
    job ← db.get_job (utc 0) job_id
    fail_with_job utc next_id run error logs (flatten_ok job)

  -- The event's effect on the row that was read.
  unfoldable pub apply_event : (ℕ → Instant) → String → ExecutorEvent → Run V → Io S Exit
  apply_event utc next_id (run_started id) run = elim (is_startable run.status) [
    | false ↦ pure returned
    | true ↦ store_logged (utc 2) (started_run env (utc 1) run)
  ]
  apply_event utc next_id (run_completed id duration_ms logs) run = elim (is_running run.status) [
    | false ↦ pure returned
    | true ↦ store_logged (utc 2) (completed_run env (utc 1) duration_ms logs run)
  ]
  apply_event utc next_id (run_failed id error logs) run = elim (is_running run.status) [
    | false ↦ pure returned
    | true ↦ fail_running utc next_id run error logs run.job_id
  ]

  abbrev pub event_run_id : ExecutorEvent → String
  event_run_id (run_started id) = id
  event_run_id (run_completed id duration_ms logs) = id
  event_run_id (run_failed id error logs) = id

  unfoldable pub apply_found : (ℕ → Instant) → String → ExecutorEvent → Option (Run V) → Io S Exit
  apply_found utc next_id event none = pure returned
  apply_found utc next_id event (some run) = apply_event utc next_id event run

  -- `next_id` is the fresh UUID of a retry.
  unfoldable pub handle_executor_event : (ℕ → Instant) → String → ExecutorEvent → Io S Exit
  handle_executor_event utc next_id event = do
    found ← db.get_run (utc 0) (event_run_id event)
    apply_found utc next_id event (flatten_ok found)
