-- ===== src/Model/Job.antt =====
-- chronon-core/src/models/job.rs: a job and how it becomes due. `V` is the type of JSON values
-- (`serde_json::Value`), which the code below copies and never takes apart.
use chronon.Base.{Option, Bool, true, false, String, ℤ, Instant}

pub data ScheduleKind : Type 0 where
  cron run_once manual : ScheduleKind

pub record Job (V : Type 0) : Type 0 where
  pub job_id : String
  pub job_name : String
  pub script_name : String
  pub script_sig_hash : String
  pub enabled : Bool
  pub schedule_kind : ScheduleKind
  pub cron_expr : Option String
  pub timezone : Option String
  pub run_once_at : Option Instant
  pub run_once_claimed_at : Option Instant
  pub run_once_claimed_by : Option String
  pub run_once_completed_at : Option Instant
  pub run_once_claim_expires_at : Option Instant
  pub partition_hash : Option ℤ
  pub claim_lease_id : Option String
  pub claim_lease_until : Option Instant
  pub pool : Option String
  pub region : Option String
  pub placement_json : Option V
  pub actor_json : V
  pub params_json : V
  pub concurrency : ℤ
  pub timeout_ms : Option ℤ
  pub retry_policy_json : V
  pub misfire_policy_json : V
  pub parent_limits_json : Option V
  pub next_run_at : Option Instant
  pub current_revision : ℤ
  pub updated_at : Instant
  pub created_at : Instant

abbrev pub is_run_once : ScheduleKind → Bool
is_run_once run_once = true
is_run_once _ = false

abbrev pub is_cron : ScheduleKind → Bool
is_cron cron = true
is_cron _ = false

abbrev pub is_manual : ScheduleKind → Bool
is_manual manual = true
is_manual _ = false
