-- ===== src/Runtime/Service.antt =====
-- chronon-runtime/src/coordinator_service.rs: upserts with a revision history, and runs on request.
-- `utc k` is the k-th reading of the clock in a call; `partition_hash` is
-- `partition_hash_i64_for_job_id`; `to_value` is `serde_json::to_value`.
pub mod Upsert
pub mod Request
use chronon.Base.{
  ℕ, Option, none, some, Bool, true, false, String, Instant, ℤ, pos, eqb_ℤ, get_or, ◌==◌,
  if◌then◌else◌,
}
use chronon.Model.Error.{
  Result, ok, err, Io, ◌>>=◌, pure, try_ok, script_mismatch, job_name_taken, job_not_found,
}
use chronon.Model.Job.{Job, is_cron}
use chronon.Model.Run.{Run, Json, for_job}
use chronon.Model.Status.{RunStatus, queued, claimed, running, success, failed, canceled}
use chronon.Model.Coordination.{JobRevision}
use chronon.Port.{SchedulerStore}
use chronon.Scheduler.Cron.{Croner, parse, next_after}
use chronon.Scheduler.Partitioning.{job_execution_pool_id}

module _ {V C Tz : Type 0} (croner : Croner C Tz) (partition_hash : String → ℤ) where
  unfoldable pub with_partition : Job V → Job V
  with_partition job = record job {
    partition_hash = some (get_or job.partition_hash (partition_hash job.job_id));
  }

  -- A cron job's next fire is computed from now.
  unfoldable pub with_next_fire : Instant → Job V → Result (Job V)
  with_next_fire now job = elim (is_cron job.schedule_kind) [
    | false ↦ ok job
    | true ↦ elim job.cron_expr [
      | none ↦ ok job
      | some cron_expr ↦ elim (parse croner cron_expr job.timezone) [
        | err e ↦ err e
        | ok cron ↦ ok (record job { next_run_at = next_after croner cron now })
      ]
    ]
  ]

module _ {V : Type 0} where
  unfoldable pub new_revision : String → Instant → String → ℤ → V → V → JobRevision V
  new_revision revision_id now job_id revision_number actor_json snapshot_json = record {
    revision_id = revision_id;
    job_id = job_id;
    revision_number = revision_number;
    changed_at = now;
    changed_by_actor_json = actor_json;
    snapshot_json = snapshot_json;
  }

module _ {V S : Type 0} (db : SchedulerStore V S) (to_value : Job V → Result V) where
  unfoldable pub append_snapshot : (ℕ → Instant) → String → Job V → ℤ → Io S (Result (Unit {0}))
  append_snapshot utc revision_id job number = elim (to_value job) [
    | err e ↦ pure (err e)
    | ok snapshot ↦
        db.append_revision (utc 4)
          (new_revision revision_id (utc 3) job.job_id number job.actor_json snapshot)
  ]

  unfoldable pub store_noted : (ℕ → Instant) → Job V → Result (Unit {0}) → Io S (Result (Unit {0}))
  store_noted utc job appended = try_ok appended λ _. db.upsert_job (utc 5) job

  unfoldable pub append_and_store : (ℕ → Instant) → String → Job V → ℤ → Io S (Result (Unit {0}))
  append_and_store utc revision_id job number = do
    appended ← append_snapshot utc revision_id job number
    store_noted utc job appended

  -- No row has the name yet, or the new job is refused.
  unfoldable pub store_new :
      (ℕ → Instant) → String → Job V → Option (Job V) → Io S (Result (Unit {0}))
  store_new utc revision_id job (some holder) =
      pure (err (job_name_taken job.job_name holder.job_id))
  store_new utc revision_id job none = append_and_store utc revision_id job (pos 1)

  unfoldable pub store_over :
      (ℕ → Instant) → String → Job V → Option (Job V) → Io S (Result (Unit {0}))
  store_over utc revision_id job (some existing) = elim (existing.script_name == job.script_name) [
    | false ↦ pure (err (script_mismatch existing.script_name job.script_name job.job_name))
    | true ↦ elim (eqb_ℤ existing.current_revision job.current_revision) [
      | true ↦ db.upsert_job (utc 5) job
      | false ↦ append_and_store utc revision_id job job.current_revision
    ]
  ]
  store_over utc revision_id job none = do
    found ← db.get_job_by_name (utc 2) job.job_name
    try_ok found λ holder. store_new utc revision_id job holder

  unfoldable pub store_prepared : (ℕ → Instant) → String → Job V → Io S (Result (Unit {0}))
  store_prepared utc revision_id job = do
    found ← db.get_job (utc 2) job.job_id
    try_ok found λ existing. store_over utc revision_id job existing

module _ {V S C Tz : Type 0} (db : SchedulerStore V S) (croner : Croner C Tz)
    (partition_hash : String → ℤ) (to_value : Job V → Result V) where
  unfoldable pub prepare : (ℕ → Instant) → Job V → Result (Job V)
  prepare utc job =
      elim (with_next_fire croner partition_hash (utc 0)
        (with_partition croner partition_hash job)) [
          | err e ↦ err e
          | ok prepared ↦ ok (record prepared { updated_at = utc 1 })
        ]

  unfoldable pub upsert_job : (ℕ → Instant) → String → Job V → Io S (Result (Unit {0}))
  upsert_job utc revision_id job =
      try_ok (prepare utc job) λ prepared. store_prepared db to_value utc revision_id prepared

-- A run on request: the overrides where they are given, else the job's own values.
module _ {V : Type 0} (json : Json V) where
  unfoldable pub run_on_request : String → Instant → Job V → Option V → Option V → Run V
  run_on_request run_id now job params_override actor_override =
      record (for_job json run_id job.job_id job.script_name now) {
        actor_json = get_or actor_override job.actor_json;
        params_json = get_or params_override job.params_json;
        pool_id = some (job_execution_pool_id job);
      }

module _ {V S : Type 0} (json : Json V) (db : SchedulerStore V S) where
  unfoldable pub run_found :
      (ℕ → Instant) → String → String → Option V → Option V → Option (Job V) → Io S (Result String)
  run_found utc run_id job_id params_override actor_override none =
      pure (err (job_not_found job_id))
  run_found utc run_id job_id params_override actor_override (some job) = do
    created ←
        db.create_run (utc 2)
          (run_on_request json run_id (utc 1) job params_override actor_override)
    try_ok created λ _. pure (ok run_id)

  unfoldable pub run_now_with_params_and_actor :
      (ℕ → Instant) → String → String → Option V → Option V → Io S (Result String)
  run_now_with_params_and_actor utc run_id job_id params_override actor_override = do
    found ← db.get_job (utc 0) job_id
    try_ok found λ job. run_found utc run_id job_id params_override actor_override job

-- `lower` is `str::to_ascii_lowercase`.
unfoldable pub parse_run_status : (String → String) → String → Option RunStatus
parse_run_status lower s =
    let t = lower s in
    if t == "queued"
    then some queued
    else if t == "claimed"
    then some claimed
    else if t == "running"
    then some running
    else if t == "success"
    then some success
    else if t == "failed"
    then some failed
    else if t == "canceled"
    then some canceled
    else if t == "timeout"
    then some RunStatus.timeout
    else none
