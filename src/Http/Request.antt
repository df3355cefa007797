-- ===== src/Http/Request.antt =====
-- chronon-axum/src/dto.rs: the bodies of requests and answers, and the actor policy of
-- chronon-core/src/actor_policy.rs.
use chronon.Base.{Option, none, some, Bool, ◌||◌, String, ℤ, Instant, if◌then◌else◌}
use chronon.Model.Error.{Result, ok, err, param_error}
use chronon.Model.Job.{Job, ScheduleKind}

pub data ScheduleKindDto : Type 0 where
  cron run_once manual : ScheduleKindDto

unfoldable pub kind_of_dto : ScheduleKindDto → ScheduleKind
kind_of_dto cron = ScheduleKind.cron
kind_of_dto run_once = ScheduleKind.run_once
kind_of_dto manual = ScheduleKind.manual

unfoldable pub dto_of_kind : ScheduleKind → ScheduleKindDto
dto_of_kind ScheduleKind.cron = cron
dto_of_kind ScheduleKind.run_once = run_once
dto_of_kind ScheduleKind.manual = manual

pub record UpsertJobRequest (V : Type 0) : Type 0 where
  pub job_name : String
  pub script_name : String
  pub cron_expr : Option String
  pub timezone : Option String
  pub schedule_kind : ScheduleKindDto
  pub params : V
  pub enabled : Bool
  pub concurrency : ℤ
  pub timeout_ms : Option ℤ
  pub actor_json : Option V
  pub retry_policy : Option V
  pub misfire_policy : Option V
  pub pool : Option String

pub record JobResponse : Type 0 where
  pub job_id : String
  pub job_name : String
  pub script_name : String
  pub enabled : Bool
  pub schedule_kind : ScheduleKindDto
  pub cron_expr : Option String
  pub timezone : Option String
  pub next_run_at : Option String
  pub current_revision : ℤ
  pub created_at : String
  pub updated_at : String
  pub pool : Option String

abbrev map_time : (Instant → String) → Option Instant → Option String
map_time rfc3339 none = none
map_time rfc3339 (some t) = some (rfc3339 t)

unfoldable pub job_response : {V : Type 0} → (Instant → String) → Job V → JobResponse
unfolding dto_of_kind
job_response rfc3339 job = record {
  job_id = job.job_id;
  job_name = job.job_name;
  script_name = job.script_name;
  enabled = job.enabled;
  schedule_kind = dto_of_kind job.schedule_kind;
  cron_expr = job.cron_expr;
  timezone = job.timezone;
  next_run_at = map_time rfc3339 job.next_run_at;
  current_revision = job.current_revision;
  created_at = rfc3339 job.created_at;
  updated_at = rfc3339 job.updated_at;
  pool = job.pool;
}

pub data EnqueueTrust : Type 0 where
  internal external : EnqueueTrust

-- `has_key key v` is `v.get(key).is_some()`.
module _ {V : Type 0} (has_key : String → V → Bool) where
  abbrev pub is_system_shaped_actor : V → Bool
  is_system_shaped_actor actor_json = has_key "System" actor_json

  abbrev pub is_service_user_shaped_actor : V → Bool
  is_service_user_shaped_actor actor_json = has_key "ServiceUser" actor_json

  -- `RejectExternalPrivilegedActor`
  unfoldable pub validate : EnqueueTrust → V → Result (Unit {0})
  validate internal actor_json = ok tt
  validate external actor_json =
      if is_system_shaped_actor actor_json || is_service_user_shaped_actor actor_json
      then err (param_error "external actor_json cannot use a System or ServiceUser actor")
      else ok tt
