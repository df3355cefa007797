-- ===== src/Sql/RunRow.antt =====
-- chronon-backend-sql-common/src/row/run.rs: a run as a SQL row, and back.
use chronon.Base.{String, ℤ, Option, Instant, ◌≡◌}
use chronon.Model.Error.{Result, ok}
use chronon.Model.Run.{Run}
use chronon.Sql.Columns.{SqlRow}
use chronon.Sql.Json.{SerdeJson, ◌>>=◌, encode_json, decode_json, encode_json_opt, decode_json_opt}
use chronon.Sql.Names.{parse_run_status, run_status_to_str}

pub record RunRow : Type 0 where
  pub run_id : String
  pub job_id : Option String
  pub script_name : String
  pub parent_run_id : Option String
  pub root_run_id : Option String
  pub child_index : Option ℤ
  pub scheduled_for : Instant
  pub started_at : Option Instant
  pub finished_at : Option Instant
  pub duration_ms : Option ℤ
  pub status : String
  pub attempt : ℤ
  pub instance_id : Option String
  pub placement_json : Option String
  pub pool_id : Option String
  pub actor_json : String
  pub params_json : String
  pub stdout_text : Option String
  pub stderr_text : Option String
  pub error_json : Option String
  pub stats_json : Option String
  pub claimed_by : Option String
  pub claim_lease_until : Option Instant

module _ {V : Type 0} (serde : SerdeJson V) where
  unfoldable pub from_model : Run V → Result RunRow
  from_model run = do
    placement_json ← encode_json_opt serde run.placement_json
    actor_json ← encode_json serde run.actor_json
    params_json ← encode_json serde run.params_json
    error_json ← encode_json_opt serde run.error_json
    stats_json ← encode_json_opt serde run.stats_json
    ok (record {
      run_id = run.run_id;
      job_id = run.job_id;
      script_name = run.script_name;
      parent_run_id = run.parent_run_id;
      root_run_id = run.root_run_id;
      child_index = run.child_index;
      scheduled_for = run.scheduled_for;
      started_at = run.started_at;
      finished_at = run.finished_at;
      duration_ms = run.duration_ms;
      status = run_status_to_str run.status;
      attempt = run.attempt;
      instance_id = run.instance_id;
      placement_json = placement_json;
      pool_id = run.pool_id;
      actor_json = actor_json;
      params_json = params_json;
      stdout_text = run.stdout_text;
      stderr_text = run.stderr_text;
      error_json = error_json;
      stats_json = stats_json;
      claimed_by = run.claimed_by;
      claim_lease_until = run.claim_lease_until;
    })

  unfoldable pub to_model : RunRow → Result (Run V)
  to_model row = do
    status ← parse_run_status row.status
    placement_json ← decode_json_opt serde row.placement_json
    actor_json ← decode_json serde row.actor_json
    params_json ← decode_json serde row.params_json
    error_json ← decode_json_opt serde row.error_json
    stats_json ← decode_json_opt serde row.stats_json
    ok (record {
      run_id = row.run_id;
      job_id = row.job_id;
      script_name = row.script_name;
      parent_run_id = row.parent_run_id;
      root_run_id = row.root_run_id;
      child_index = row.child_index;
      scheduled_for = row.scheduled_for;
      started_at = row.started_at;
      finished_at = row.finished_at;
      duration_ms = row.duration_ms;
      status = status;
      attempt = row.attempt;
      instance_id = row.instance_id;
      placement_json = placement_json;
      pool_id = row.pool_id;
      actor_json = actor_json;
      params_json = params_json;
      stdout_text = row.stdout_text;
      stderr_text = row.stderr_text;
      error_json = error_json;
      stats_json = stats_json;
      claimed_by = row.claimed_by;
      claim_lease_until = row.claim_lease_until;
    })

  unfoldable pub row_to_run : SqlRow → Result (Run V)
  row_to_run row = do
    status ← row.text "status"
    run_id ← row.text "run_id"
    job_id ← row.text_opt "job_id"
    script_name ← row.text "script_name"
    parent_run_id ← row.text_opt "parent_run_id"
    root_run_id ← row.text_opt "root_run_id"
    child_index ← row.i32_opt "child_index"
    scheduled_for ← row.time "scheduled_for"
    started_at ← row.time_opt "started_at"
    finished_at ← row.time_opt "finished_at"
    duration_ms ← row.i64_opt "duration_ms"
    attempt ← row.i32 "attempt"
    instance_id ← row.text_opt "instance_id"
    placement_json ← row.text_opt "placement_json"
    pool_id ← row.text_opt "pool_id"
    actor_json ← row.text "actor_json"
    params_json ← row.text "params_json"
    stdout_text ← row.text_opt "stdout_text"
    stderr_text ← row.text_opt "stderr_text"
    error_json ← row.text_opt "error_json"
    stats_json ← row.text_opt "stats_json"
    claimed_by ← row.text_opt "claimed_by"
    claim_lease_until ← row.time_opt "claim_lease_until"
    to_model (record {
      run_id = run_id;
      job_id = job_id;
      script_name = script_name;
      parent_run_id = parent_run_id;
      root_run_id = root_run_id;
      child_index = child_index;
      scheduled_for = scheduled_for;
      started_at = started_at;
      finished_at = finished_at;
      duration_ms = duration_ms;
      status = status;
      attempt = attempt;
      instance_id = instance_id;
      placement_json = placement_json;
      pool_id = pool_id;
      actor_json = actor_json;
      params_json = params_json;
      stdout_text = stdout_text;
      stderr_text = stderr_text;
      error_json = error_json;
      stats_json = stats_json;
      claimed_by = claimed_by;
      claim_lease_until = claim_lease_until;
    })

-- The row gives, in each column, what was bound to it. A database that rounds does not give this for
-- each instant: PostgreSQL keeps whole microseconds.
pub record Holds (row : SqlRow) (r : RunRow) : Type 0 where
  pub run_id : row.text "run_id" ≡ ok r.run_id
  pub job_id : row.text_opt "job_id" ≡ ok r.job_id
  pub script_name : row.text "script_name" ≡ ok r.script_name
  pub parent_run_id : row.text_opt "parent_run_id" ≡ ok r.parent_run_id
  pub root_run_id : row.text_opt "root_run_id" ≡ ok r.root_run_id
  pub child_index : row.i32_opt "child_index" ≡ ok r.child_index
  pub scheduled_for : row.time "scheduled_for" ≡ ok r.scheduled_for
  pub started_at : row.time_opt "started_at" ≡ ok r.started_at
  pub finished_at : row.time_opt "finished_at" ≡ ok r.finished_at
  pub duration_ms : row.i64_opt "duration_ms" ≡ ok r.duration_ms
  pub status : row.text "status" ≡ ok r.status
  pub attempt : row.i32 "attempt" ≡ ok r.attempt
  pub instance_id : row.text_opt "instance_id" ≡ ok r.instance_id
  pub placement_json : row.text_opt "placement_json" ≡ ok r.placement_json
  pub pool_id : row.text_opt "pool_id" ≡ ok r.pool_id
  pub actor_json : row.text "actor_json" ≡ ok r.actor_json
  pub params_json : row.text "params_json" ≡ ok r.params_json
  pub stdout_text : row.text_opt "stdout_text" ≡ ok r.stdout_text
  pub stderr_text : row.text_opt "stderr_text" ≡ ok r.stderr_text
  pub error_json : row.text_opt "error_json" ≡ ok r.error_json
  pub stats_json : row.text_opt "stats_json" ≡ ok r.stats_json
  pub claimed_by : row.text_opt "claimed_by" ≡ ok r.claimed_by
  pub claim_lease_until : row.time_opt "claim_lease_until" ≡ ok r.claim_lease_until
