-- ===== src/Redis/Composite.antt =====
-- chronon-backend-redis/src/composite/mod.rs: the store over SQL rows and the ready queue.
use chronon.Base.{ℕ, Option, none, some, List, [], ◌∷◌, String, Instant, if◌then◌else◌}
use chronon.Model.Error.{Result, ok, Io, ◌>>=◌, pure, try_ok}
use chronon.Model.Run.{Run}
use chronon.Mem.Runs.{is_queued}
use chronon.Port.{SchedulerStore}
use chronon.Redis.Queue.{RedisQueueLayer, enqueue_run}
use chronon.Redis.Claim.{on_sql, on_queue, run_pool_key}
use chronon.Redis.Claim

module _ {V S Q : Type 0} (sql : SchedulerStore V S)
    (claim_many : Instant
      → List String
      → String
      → String
      → Instant
      → ℕ
      → Io S (Result (List (Run V))))
    (redis : RedisQueueLayer Q) (batch : ℕ) where
  unfoldable pub create_run : Instant → Run V → Io (S × Q) (Result (Unit {0}))
  create_run utc run = do
    created ← on_sql (sql.create_run utc run)
    try_ok created λ _.
        if is_queued run.status
        then on_queue (enqueue_run redis (run_pool_key run.pool_id) run.run_id run.scheduled_for)
        else pure (ok tt)

  -- The body of the loop for one row, where there is one.
  unfoldable pub enqueue_found : Option (Run V) → Io (S × Q) (Result (Unit {0}))
  enqueue_found none = pure (ok tt)
  enqueue_found (some run) =
      on_queue (enqueue_run redis (run_pool_key run.pool_id) run.run_id run.scheduled_for)

  unfoldable pub enqueue_reclaimed : Instant → List String → Io (S × Q) (Result (Unit {0}))
  unfolding enqueue_found
  enqueue_reclaimed utc [] = pure (ok tt)
  enqueue_reclaimed utc (run_id ∷ ids) = do
    found ← on_sql (sql.get_run utc run_id)
    try_ok found
        λ run. do enqueued ← enqueue_found run; try_ok enqueued λ _. enqueue_reclaimed utc ids

  unfoldable pub reclaim_expired_run_leases : Instant → Instant → Io (S × Q) (Result (List String))
  reclaim_expired_run_leases utc now = do
    reclaimed ← on_sql (sql.reclaim_expired_run_leases utc now)
    try_ok reclaimed
        λ ids. do enqueued ← enqueue_reclaimed utc ids; try_ok enqueued λ _. pure (ok ids)

  abbrev pub composite_store : SchedulerStore V (S × Q)
  composite_store = record {
    upsert_job = λ utc x0. on_sql (sql.upsert_job utc x0);
    get_job = λ utc x0. on_sql (sql.get_job utc x0);
    get_job_by_name = λ utc x0. on_sql (sql.get_job_by_name utc x0);
    list_jobs = λ utc. on_sql (sql.list_jobs utc);
    list_due_jobs = λ utc x0. on_sql (sql.list_due_jobs utc x0);
    pause_job = λ utc x0. on_sql (sql.pause_job utc x0);
    resume_job = λ utc x0. on_sql (sql.resume_job utc x0);
    delete_job = λ utc x0. on_sql (sql.delete_job utc x0);
    create_run = create_run;
    update_run = λ utc x0. on_sql (sql.update_run utc x0);
    get_run = λ utc x0. on_sql (sql.get_run utc x0);
    list_runs_for_job = λ utc x0 x1. on_sql (sql.list_runs_for_job utc x0 x1);
    list_runs_filtered = λ utc x0 x1 x2 x3. on_sql (sql.list_runs_filtered utc x0 x1 x2 x3);
    claim_next_queued = λ utc pool_id worker_id now lease_ttl_secs.
        Claim.claim_next_queued sql claim_many redis utc pool_id worker_id now lease_ttl_secs batch;
    claim_run_by_id = λ utc x0 x1 x2 x3 x4. on_sql (sql.claim_run_by_id utc x0 x1 x2 x3 x4);
    renew_run_lease = λ utc x0 x1 x2 x3. on_sql (sql.renew_run_lease utc x0 x1 x2 x3);
    reclaim_expired_run_leases = reclaim_expired_run_leases;
    append_revision = λ utc x0. on_sql (sql.append_revision utc x0);
    list_revisions = λ utc x0. on_sql (sql.list_revisions utc x0);
    upsert_script = λ utc x0. on_sql (sql.upsert_script utc x0);
    get_script = λ utc x0. on_sql (sql.get_script utc x0);
    try_claim_run_once = λ utc x0 x1 x2 x3. on_sql (sql.try_claim_run_once utc x0 x1 x2 x3);
    mark_run_once_completed = λ utc x0 x1. on_sql (sql.mark_run_once_completed utc x0 x1);
    release_run_once_claim = λ utc x0 x1 x2. on_sql (sql.release_run_once_claim utc x0 x1 x2);
    find_due_job_ids_in_partitions =
        λ utc x0 x1 x2. on_sql (sql.find_due_job_ids_in_partitions utc x0 x1 x2);
    min_next_run_at_in_partitions = λ utc x0. on_sql (sql.min_next_run_at_in_partitions utc x0);
    claim_job_for_tick = λ utc x0 x1 x2 x3. on_sql (sql.claim_job_for_tick utc x0 x1 x2 x3);
    release_job_tick_claim = λ utc x0. on_sql (sql.release_job_tick_claim utc x0);
    persist_post_tick_job_state = λ utc x0 x1. on_sql (sql.persist_post_tick_job_state utc x0 x1);
    try_acquire_leader = λ utc x0 x1. on_sql (sql.try_acquire_leader utc x0 x1);
    renew_leader_lease = λ utc x0 x1. on_sql (sql.renew_leader_lease utc x0 x1);
    get_leader = λ utc. on_sql (sql.get_leader utc);
    upsert_partition_assignment = λ utc x0. on_sql (sql.upsert_partition_assignment utc x0);
    list_partition_assignments = λ utc. on_sql (sql.list_partition_assignments utc);
    register_worker = λ utc x0. on_sql (sql.register_worker utc x0);
    heartbeat_worker = λ utc x0 x1. on_sql (sql.heartbeat_worker utc x0 x1);
  }
