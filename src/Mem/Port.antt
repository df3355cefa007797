-- ===== src/Mem/Port.antt =====
-- chronon-backend-mem/src/store/trait_impl.rs: the in-memory store as a `SchedulerStore`.
use chronon.Port.{SchedulerStore}
use chronon.Mem.State.{Store}
use chronon.Mem.Jobs
use chronon.Mem.Runs
use chronon.Mem.Claims
use chronon.Mem.Coordinator

abbrev pub mem_store : (V : Type 0) → SchedulerStore V (Store V)
mem_store V = record {
  upsert_job = λ utc. Jobs.upsert_job;
  get_job = λ utc. Jobs.get_job;
  get_job_by_name = λ utc. Jobs.get_job_by_name;
  list_jobs = λ utc. Jobs.list_jobs;
  list_due_jobs = λ utc. Jobs.list_due_jobs;
  pause_job = Jobs.pause_job;
  resume_job = Jobs.resume_job;
  delete_job = λ utc. Jobs.delete_job;
  create_run = λ utc. Runs.create_run;
  update_run = λ utc. Runs.update_run;
  get_run = λ utc. Runs.get_run;
  list_runs_for_job = λ utc. Runs.list_runs_for_job;
  list_runs_filtered = λ utc. Runs.list_runs_filtered;
  claim_next_queued = λ utc. Runs.claim_next_queued;
  claim_run_by_id = λ utc. Runs.claim_run_by_id;
  renew_run_lease = λ utc. Runs.renew_run_lease;
  reclaim_expired_run_leases = λ utc. Runs.reclaim_expired_run_leases;
  append_revision = λ utc. Coordinator.append_revision;
  list_revisions = λ utc. Coordinator.list_revisions;
  upsert_script = λ utc. Coordinator.upsert_script;
  get_script = λ utc. Coordinator.get_script;
  try_claim_run_once = λ utc. Claims.try_claim_run_once;
  mark_run_once_completed = Claims.mark_run_once_completed;
  release_run_once_claim = λ utc. Claims.release_run_once_claim;
  find_due_job_ids_in_partitions = Claims.find_due_job_ids_in_partitions;
  min_next_run_at_in_partitions = λ utc. Claims.min_next_run_at_in_partitions;
  claim_job_for_tick = λ utc. Claims.claim_job_for_tick;
  release_job_tick_claim = Claims.release_job_tick_claim;
  persist_post_tick_job_state = Claims.persist_post_tick_job_state;
  try_acquire_leader = Coordinator.try_acquire_leader;
  renew_leader_lease = Coordinator.renew_leader_lease;
  get_leader = λ utc. Coordinator.get_leader;
  upsert_partition_assignment = λ utc. Coordinator.upsert_partition_assignment;
  list_partition_assignments = λ utc. Coordinator.list_partition_assignments;
  register_worker = λ utc. Coordinator.register_worker;
  heartbeat_worker = λ utc. Coordinator.heartbeat_worker;
}
