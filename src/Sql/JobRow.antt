-- ===== src/Sql/JobRow.antt =====
-- chronon-backend-sql-common/src/row/job.rs: a job as a SQL row, and back.
use chronon.Base.{
  String, ℤ, pos, eqb_ℤ, Bool, not, Option, Instant, ◌≡◌, ◌⊎◌, inl, inr, true, false, if◌then◌else◌,
}
use chronon.Model.Error.{Result, ok, err, ChrononError}
use chronon.Model.Job.{Job}
use chronon.Sql.Columns.{SqlRow}
use chronon.Sql.Json.{SerdeJson, ◌>>=◌, encode_json, decode_json, encode_json_opt, decode_json_opt}
use chronon.Sql.Names.{parse_schedule_kind, schedule_kind_to_str}

pub record JobRow : Type 0 where
  pub job_id : String
  pub job_name : String
  pub script_name : String
  pub script_sig_hash : String
  pub enabled : Bool
  pub schedule_kind : String
  pub cron_expr : Option String
  pub timezone : Option String
  pub run_once_at : Option Instant
  pub run_once_claimed_at : Option Instant
  pub run_once_claimed_by : Option String
  pub run_once_completed_at : Option Instant
  pub run_once_claim_expires_at : Option Instant
  pub partition_hash : Option ℤ
  pub claim_lease_id : Option String
  pub claim_lease_until : Option Instant
  pub pool : Option String
  pub region : Option String
  pub placement_json : Option String
  pub actor_json : String
  pub params_json : String
  pub concurrency : ℤ
  pub timeout_ms : Option ℤ
  pub retry_policy_json : String
  pub misfire_policy_json : String
  pub parent_limits_json : Option String
  pub next_run_at : Option Instant
  pub current_revision : ℤ
  pub updated_at : Instant
  pub created_at : Instant

abbrev flag_or_number : Result Bool → Result ℤ → Result Bool
flag_or_number (ok b) number = ok b
flag_or_number (err _) number = number >>= λ v. ok (not (eqb_ℤ v (pos 0)))

-- SQLite keeps a flag as a number: where the column is no Boolean it is read as one.
unfoldable pub read_enabled : SqlRow → Result Bool
read_enabled row = flag_or_number (row.flag "enabled") (row.i32 "enabled")

-- The column is the flag itself, or no Boolean and the number 1 or 0.
abbrev pub Flagged : SqlRow → Bool → Type 0
Flagged row b =
    (row.flag "enabled" ≡ ok b)
    ⊎ ((e : ChrononError) × (row.flag "enabled" ≡ err e)
        × (row.i32 "enabled" ≡ ok (pos (if b then 1 else 0))))

pub read_enabled-Flagged : (row : SqlRow) (b : Bool) → Flagged row b → read_enabled row ≡ ok b
unfolding read_enabled
read_enabled-Flagged row b (inl h) = rw h
read_enabled-Flagged row true (inr (e, h, k)) = rw (h, k)
read_enabled-Flagged row false (inr (e, h, k)) = rw (h, k)

module _ {V : Type 0} (serde : SerdeJson V) where
  unfoldable pub from_model : Job V → Result JobRow
  from_model job = do
    placement_json ← encode_json_opt serde job.placement_json
    actor_json ← encode_json serde job.actor_json
    params_json ← encode_json serde job.params_json
    retry_policy_json ← encode_json serde job.retry_policy_json
    misfire_policy_json ← encode_json serde job.misfire_policy_json
    parent_limits_json ← encode_json_opt serde job.parent_limits_json
    ok (record {
      job_id = job.job_id;
      job_name = job.job_name;
      script_name = job.script_name;
      script_sig_hash = job.script_sig_hash;
      enabled = job.enabled;
      schedule_kind = schedule_kind_to_str job.schedule_kind;
      cron_expr = job.cron_expr;
      timezone = job.timezone;
      run_once_at = job.run_once_at;
      run_once_claimed_at = job.run_once_claimed_at;
      run_once_claimed_by = job.run_once_claimed_by;
      run_once_completed_at = job.run_once_completed_at;
      run_once_claim_expires_at = job.run_once_claim_expires_at;
      partition_hash = job.partition_hash;
      claim_lease_id = job.claim_lease_id;
      claim_lease_until = job.claim_lease_until;
      pool = job.pool;
      region = job.region;
      placement_json = placement_json;
      actor_json = actor_json;
      params_json = params_json;
      concurrency = job.concurrency;
      timeout_ms = job.timeout_ms;
      retry_policy_json = retry_policy_json;
      misfire_policy_json = misfire_policy_json;
      parent_limits_json = parent_limits_json;
      next_run_at = job.next_run_at;
      current_revision = job.current_revision;
      updated_at = job.updated_at;
      created_at = job.created_at;
    })

  unfoldable pub to_model : JobRow → Result (Job V)
  to_model row = do
    schedule_kind ← parse_schedule_kind row.schedule_kind
    placement_json ← decode_json_opt serde row.placement_json
    actor_json ← decode_json serde row.actor_json
    params_json ← decode_json serde row.params_json
    retry_policy_json ← decode_json serde row.retry_policy_json
    misfire_policy_json ← decode_json serde row.misfire_policy_json
    parent_limits_json ← decode_json_opt serde row.parent_limits_json
    ok (record {
      job_id = row.job_id;
      job_name = row.job_name;
      script_name = row.script_name;
      script_sig_hash = row.script_sig_hash;
      enabled = row.enabled;
      schedule_kind = schedule_kind;
      cron_expr = row.cron_expr;
      timezone = row.timezone;
      run_once_at = row.run_once_at;
      run_once_claimed_at = row.run_once_claimed_at;
      run_once_claimed_by = row.run_once_claimed_by;
      run_once_completed_at = row.run_once_completed_at;
      run_once_claim_expires_at = row.run_once_claim_expires_at;
      partition_hash = row.partition_hash;
      claim_lease_id = row.claim_lease_id;
      claim_lease_until = row.claim_lease_until;
      pool = row.pool;
      region = row.region;
      placement_json = placement_json;
      actor_json = actor_json;
      params_json = params_json;
      concurrency = row.concurrency;
      timeout_ms = row.timeout_ms;
      retry_policy_json = retry_policy_json;
      misfire_policy_json = misfire_policy_json;
      parent_limits_json = parent_limits_json;
      next_run_at = row.next_run_at;
      current_revision = row.current_revision;
      updated_at = row.updated_at;
      created_at = row.created_at;
    })

  unfoldable pub row_to_job : SqlRow → Result (Job V)
  row_to_job row = do
    enabled ← read_enabled row
    schedule_kind ← row.text "schedule_kind"
    job_id ← row.text "job_id"
    job_name ← row.text "job_name"
    script_name ← row.text "script_name"
    script_sig_hash ← row.text "script_sig_hash"
    cron_expr ← row.text_opt "cron_expr"
    timezone ← row.text_opt "timezone"
    run_once_at ← row.time_opt "run_once_at"
    run_once_claimed_at ← row.time_opt "run_once_claimed_at"
    run_once_claimed_by ← row.text_opt "run_once_claimed_by"
    run_once_completed_at ← row.time_opt "run_once_completed_at"
    run_once_claim_expires_at ← row.time_opt "run_once_claim_expires_at"
    partition_hash ← row.i64_opt "partition_hash"
    claim_lease_id ← row.text_opt "claim_lease_id"
    claim_lease_until ← row.time_opt "claim_lease_until"
    pool ← row.text_opt "pool"
    region ← row.text_opt "region"
    placement_json ← row.text_opt "placement_json"
    actor_json ← row.text "actor_json"
    params_json ← row.text "params_json"
    concurrency ← row.i32 "concurrency"
    timeout_ms ← row.i64_opt "timeout_ms"
    retry_policy_json ← row.text "retry_policy_json"
    misfire_policy_json ← row.text "misfire_policy_json"
    parent_limits_json ← row.text_opt "parent_limits_json"
    next_run_at ← row.time_opt "next_run_at"
    current_revision ← row.i32 "current_revision"
    updated_at ← row.time "updated_at"
    created_at ← row.time "created_at"
    to_model (record {
      job_id = job_id;
      job_name = job_name;
      script_name = script_name;
      script_sig_hash = script_sig_hash;
      enabled = enabled;
      schedule_kind = schedule_kind;
      cron_expr = cron_expr;
      timezone = timezone;
      run_once_at = run_once_at;
      run_once_claimed_at = run_once_claimed_at;
      run_once_claimed_by = run_once_claimed_by;
      run_once_completed_at = run_once_completed_at;
      run_once_claim_expires_at = run_once_claim_expires_at;
      partition_hash = partition_hash;
      claim_lease_id = claim_lease_id;
      claim_lease_until = claim_lease_until;
      pool = pool;
      region = region;
      placement_json = placement_json;
      actor_json = actor_json;
      params_json = params_json;
      concurrency = concurrency;
      timeout_ms = timeout_ms;
      retry_policy_json = retry_policy_json;
      misfire_policy_json = misfire_policy_json;
      parent_limits_json = parent_limits_json;
      next_run_at = next_run_at;
      current_revision = current_revision;
      updated_at = updated_at;
      created_at = created_at;
    })

-- The row gives, in each column, what was bound to it. A database that rounds does not give this for
-- each instant: PostgreSQL keeps whole microseconds.
pub record Holds (row : SqlRow) (r : JobRow) : Type 0 where
  pub job_id : row.text "job_id" ≡ ok r.job_id
  pub job_name : row.text "job_name" ≡ ok r.job_name
  pub script_name : row.text "script_name" ≡ ok r.script_name
  pub script_sig_hash : row.text "script_sig_hash" ≡ ok r.script_sig_hash
  pub enabled : Flagged row r.enabled
  pub schedule_kind : row.text "schedule_kind" ≡ ok r.schedule_kind
  pub cron_expr : row.text_opt "cron_expr" ≡ ok r.cron_expr
  pub timezone : row.text_opt "timezone" ≡ ok r.timezone
  pub run_once_at : row.time_opt "run_once_at" ≡ ok r.run_once_at
  pub run_once_claimed_at : row.time_opt "run_once_claimed_at" ≡ ok r.run_once_claimed_at
  pub run_once_claimed_by : row.text_opt "run_once_claimed_by" ≡ ok r.run_once_claimed_by
  pub run_once_completed_at : row.time_opt "run_once_completed_at" ≡ ok r.run_once_completed_at
  pub run_once_claim_expires_at :
      row.time_opt "run_once_claim_expires_at" ≡ ok r.run_once_claim_expires_at
  pub partition_hash : row.i64_opt "partition_hash" ≡ ok r.partition_hash
  pub claim_lease_id : row.text_opt "claim_lease_id" ≡ ok r.claim_lease_id
  pub claim_lease_until : row.time_opt "claim_lease_until" ≡ ok r.claim_lease_until
  pub pool : row.text_opt "pool" ≡ ok r.pool
  pub region : row.text_opt "region" ≡ ok r.region
  pub placement_json : row.text_opt "placement_json" ≡ ok r.placement_json
  pub actor_json : row.text "actor_json" ≡ ok r.actor_json
  pub params_json : row.text "params_json" ≡ ok r.params_json
  pub concurrency : row.i32 "concurrency" ≡ ok r.concurrency
  pub timeout_ms : row.i64_opt "timeout_ms" ≡ ok r.timeout_ms
  pub retry_policy_json : row.text "retry_policy_json" ≡ ok r.retry_policy_json
  pub misfire_policy_json : row.text "misfire_policy_json" ≡ ok r.misfire_policy_json
  pub parent_limits_json : row.text_opt "parent_limits_json" ≡ ok r.parent_limits_json
  pub next_run_at : row.time_opt "next_run_at" ≡ ok r.next_run_at
  pub current_revision : row.i32 "current_revision" ≡ ok r.current_revision
  pub updated_at : row.time "updated_at" ≡ ok r.updated_at
  pub created_at : row.time "created_at" ≡ ok r.created_at
