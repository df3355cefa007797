-- ===== src/Runtime/Worker.antt =====
-- chronon-runtime/src/worker.rs: one round of a worker slot, and the worker's heartbeat. `utc k` is
-- the k-th reading of the clock. The executor and its script are a parameter: they run against the
-- store, which other tasks (the renewal of the lease, other workers) change meanwhile.
pub mod Ends
use Prim.Native.Char.{Char}
use Prim.Native.String.{◌++◌ as append}
use chronon.Base.{
  ℕ, zero, suc, ◌+◌, Option, none, some, Bool, true, false, String, Instant, ℤ, pos, negsuc, ltb,
  leb, is_some, is_empty_text, num_milliseconds, if◌then◌else◌,
}
use chronon.Model.Coordination.{Worker, online}
use chronon.Model.Error.{
  Result, ok, err, Io, ◌>>=◌, ◌>>◌, pure, flatten_ok, Exit, returned, endless,
}
use chronon.Model.Job.{Job}
use chronon.Model.Run
use chronon.Model.Run.{Run, start, complete, fail}
use chronon.Model.Status.{RunStatus, running, failed, timeout}
use chronon.Port.{SchedulerStore}
use chronon.Runtime.Retry.{Failures, CapturedLogs, finalize_failed_run}

-- What came of the script: its error's text, if it failed or panicked, its logs, and how long it took.
-- A script that never ends has none.
pub record ScriptEnd : Type 0 where
  pub error : Option String
  pub logs : CapturedLogs
  pub took_ms : ℕ

abbrev cut_off_logs : CapturedLogs
cut_off_logs = record { stdout_text = none; stderr_text = none }

abbrev of_error : Option String → Option (RunStatus × String)
of_error none = none
of_error (some e) = some (failed, e)

-- `job.timeout_ms`, where it is positive.
abbrev pub time_limit : Option ℤ → Option ℕ
time_limit none = none
time_limit (some (pos zero)) = none
time_limit (some (pos (suc n))) = some (suc n)
time_limit (some (negsuc n)) = none

unfoldable timed_out : (ℕ → String) → ℕ → Option (RunStatus × String) × CapturedLogs
timed_out show ms = (some (timeout, append "run exceeded timeout_ms=" (show ms)), cut_off_logs)

-- The status and message of a failure, none for a success, and the logs. A script that takes longer
-- than the limit is cut off; without a limit, one that never ends has no result.
unfoldable pub status_result :
    (ℕ → String) → Option ℕ → Option ScriptEnd → Option (Option (RunStatus × String) × CapturedLogs)
unfolding timed_out
status_result show none none = none
status_result show none (some e) = some (of_error e.error, e.logs)
status_result show (some ms) none = some (timed_out show ms)
status_result show (some ms) (some e) =
    if leb e.took_ms ms then some (of_error e.error, e.logs) else some (timed_out show ms)

-- `if logs.is_some() { text = logs }`
abbrev pub or_kept : Option String → Option String → Option String
or_kept none old = old
or_kept (some new) old = some new

module _ {V S F : Type 0} (env : Failures V F) (db : SchedulerStore V S) (show : ℕ → String)
    (execute : Run V → Job V → Io S (Option ScriptEnd)) (utc : ℕ → Instant) (next_id : String) where
  unfoldable pub completed : Run V → CapturedLogs → Run V
  completed run logs =
      let done = complete run (utc 8) in
      record done {
        duration_ms = some (num_milliseconds (utc 7) (utc 6));
        stdout_text = or_kept logs.stdout_text done.stdout_text;
        stderr_text = or_kept logs.stderr_text done.stderr_text;
      }

  -- `match status_result`
  unfoldable pub finish : Run V → Job V → Option (RunStatus × String) × CapturedLogs → Io S Exit
  unfolding completed
  finish run job (none, logs) = do
    stored ← db.update_run (utc 9) (completed run logs)
    pure returned
  finish run job (some (status, message), logs) =
      finalize_failed_run env db (λ k. utc (k + 9)) next_id
        (record run { duration_ms = some (num_milliseconds (utc 7) (utc 6)) }) job status message
        (some logs)

  -- A script without a limit that never ends holds the slot for ever.
  unfoldable pub finish_or_wait :
      Run V → Job V → Option (Option (RunStatus × String) × CapturedLogs) → Io S Exit
  finish_or_wait run job none = pure endless
  finish_or_wait run job (some result) = finish run job result

  -- From the write of the running status on: where it fails, the run is abandoned.
  unfoldable pub run_script : Run V → Job V → Result (Unit {0}) → Io S Exit
  run_script run job (err e) = pure returned
  run_script run job (ok _) = do
    ended ← execute run job
    finish_or_wait run job (status_result show (time_limit job.timeout_ms) ended)

  unfoldable pub started : Run V → Run V
  started run = record (start run (utc 4)) { status = running }

  unfoldable pub serve_job : Run V → Option (Job V) → Io S Exit
  unfolding started
  serve_job run none = do
    stored ← db.update_run (utc 5) (fail env.json run "job not found" (utc 4))
    pure returned
  serve_job run (some job) = do
    stored ← db.update_run (utc 5) (started run)
    run_script (started run) job stored

  unfoldable pub serve_for : Run V → Option String → Io S Exit
  serve_for run none = do
    stored ← db.update_run (utc 3) (fail env.json run "missing job_id" (utc 2))
    pure returned
  serve_for run (some job_id) = do
    found ← db.get_job (utc 3) job_id
    serve_job run (flatten_ok found)

  unfoldable pub serve : Run V → Io S Exit
  unfolding serve_for
  serve run = serve_for run run.job_id

  -- Nothing to claim, or a claim that fails, leaves the slot asleep until the next round.
  unfoldable pub serve_claimed : Option (Run V) → Io S Exit
  serve_claimed none = pure returned
  serve_claimed (some run) = serve run

  unfoldable pub slot_round : String → String → ℕ → Io S Exit
  unfolding serve_claimed
  slot_round pool worker_id ttl = do
    claimed ← db.claim_next_queued (utc 1) pool worker_id (utc 0) ttl
    serve_claimed (flatten_ok claimed)

-- `char::is_alphanumeric` is a parameter, and so is the character that stands for the others.
abbrev clean : (Char → Bool) → Char → ℕ → String → String
clean is_alphanumeric other zero s = String.[]
clean is_alphanumeric other (suc n) String.[] = String.[]
clean is_alphanumeric other (suc n) (String.◌∷◌ c s) =
    String.◌∷◌ (if is_alphanumeric c then c else other) (clean is_alphanumeric other n s)

unfoldable pub worker_row_id : (Char → Bool) → String → String
worker_row_id is_alphanumeric worker_id =
    let s = clean is_alphanumeric "_" 200 worker_id in if is_empty_text s then "worker" else s

module _ {V S : Type 0} (db : SchedulerStore V S) (is_alphanumeric : Char → Bool)
    (utc : ℕ → Instant) where
  abbrev heartbeat_row : String → String → Worker V
  heartbeat_row worker_id pool = record {
    worker_id = worker_row_id is_alphanumeric worker_id;
    pool_id = pool;
    cell_id = none;
    status = online;
    last_heartbeat_at = utc 0;
    capacity_json = none;
    created_at = utc 0;
    updated_at = utc 0;
  }

  abbrev beat_after : String → Result (Unit {0}) → Io S (Unit {0})
  beat_after worker_id (err e) = pure tt
  beat_after worker_id (ok _) = do
    beaten ← db.heartbeat_worker (utc 2) (worker_row_id is_alphanumeric worker_id) (utc 0)
    pure tt

  unfoldable pub heartbeat_worker : String → String → Io S (Unit {0})
  heartbeat_worker worker_id pool = do
    registered ← db.register_worker (utc 1) (heartbeat_row worker_id pool)
    beat_after worker_id registered
