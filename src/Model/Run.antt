-- ===== src/Model/Run.antt =====
-- chronon-core/src/models/run.rs: one execution attempt.
use chronon.Base.{Option, none, some, String, ℤ, pos, Instant, num_milliseconds}
use chronon.Model.Status.{RunStatus, queued, running, success, failed}

pub record Run (V : Type 0) : Type 0 where
  pub run_id : String
  pub job_id : Option String
  pub script_name : String
  pub parent_run_id : Option String
  pub root_run_id : Option String
  pub child_index : Option ℤ
  pub scheduled_for : Instant
  pub started_at : Option Instant
  pub finished_at : Option Instant
  pub duration_ms : Option ℤ
  pub status : RunStatus
  pub attempt : ℤ
  pub instance_id : Option String
  pub placement_json : Option V
  pub pool_id : Option String
  pub actor_json : V
  pub params_json : V
  pub stdout_text : Option String
  pub stderr_text : Option String
  pub error_json : Option V
  pub stats_json : Option V
  pub claimed_by : Option String
  pub claim_lease_until : Option Instant

-- The JSON values that the code builds.
pub record Json (V : Type 0) : Type 0 where
  pub null : V
  pub empty_object : V
  pub message : String → V

module _ {V : Type 0} (json : Json V) where
  -- `run_id` is the fresh UUID.
  unfoldable pub new_run : String → String → Instant → Run V
  new_run run_id script_name scheduled_for = record {
    run_id = run_id;
    job_id = none;
    script_name = script_name;
    parent_run_id = none;
    root_run_id = none;
    child_index = none;
    scheduled_for = scheduled_for;
    started_at = none;
    finished_at = none;
    duration_ms = none;
    status = queued;
    attempt = pos 1;
    instance_id = none;
    placement_json = none;
    pool_id = none;
    actor_json = json.null;
    params_json = json.empty_object;
    stdout_text = none;
    stderr_text = none;
    error_json = none;
    stats_json = none;
    claimed_by = none;
    claim_lease_until = none;
  }

  unfoldable pub for_job : String → String → String → Instant → Run V
  unfolding new_run
  for_job run_id job_id script_name scheduled_for =
      record (new_run run_id script_name scheduled_for) { job_id = some job_id }

-- `Utc::now()` is the instant given.
module _ {V : Type 0} where
  -- The value of `duration_ms` once the run ends.
  elapsed : Run V → Instant → Option ℤ
  elapsed run finished = elim run.started_at [
    | none ↦ run.duration_ms
    | some started ↦ some (num_milliseconds finished started)
  ]

  unfoldable pub start : Run V → Instant → Run V
  start run now = record run { started_at = some now; status = running }

  unfoldable pub complete : Run V → Instant → Run V
  unfolding elapsed
  complete run finished = record run {
    finished_at = some finished;
    status = success;
    duration_ms = elapsed run finished;
  }

  unfoldable pub fail : Json V → Run V → String → Instant → Run V
  unfolding elapsed
  fail json run error finished = record run {
    finished_at = some finished;
    status = failed;
    error_json = some (json.message error);
    duration_ms = elapsed run finished;
  }

  unfoldable pub timeout : Json V → Run V → String → Instant → Run V
  unfolding elapsed
  timeout json run error finished = record run {
    finished_at = some finished;
    status = RunStatus.timeout;
    error_json = some (json.message error);
    duration_ms = elapsed run finished;
  }
