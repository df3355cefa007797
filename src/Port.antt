-- ===== src/Port.antt =====
-- chronon-core/src/store.rs: the operations that the scheduler and the runtime ask of a store, as an
-- interface over the store's state `S`. The first argument of each call is what the clock reads in it.
use chronon.Base.{ℕ, Option, none, some, Bool, List, [], ◌∷◌, String, Instant}
use chronon.Model.Error.{Result, ok, Io, ◌>>=◌, pure, try_ok}
use chronon.Model.Job.{Job}
use chronon.Model.Run.{Run}
use chronon.Model.Status.{RunStatus}
use chronon.Model.Coordination.{JobRevision, Script, SchedulerLeader, PartitionAssignment, Worker}

pub record SchedulerStore (V S : Type 0) : Type 0 where
  pub upsert_job : Instant → Job V → Io S (Result (Unit {0}))
  pub get_job : Instant → String → Io S (Result (Option (Job V)))
  pub get_job_by_name : Instant → String → Io S (Result (Option (Job V)))
  pub list_jobs : Instant → Io S (Result (List (Job V)))
  pub list_due_jobs : Instant → Instant → Io S (Result (List (Job V)))
  pub pause_job : Instant → String → Io S (Result (Unit {0}))
  pub resume_job : Instant → String → Io S (Result (Unit {0}))
  pub delete_job : Instant → String → Io S (Result Bool)
  pub create_run : Instant → Run V → Io S (Result (Unit {0}))
  pub update_run : Instant → Run V → Io S (Result (Unit {0}))
  pub get_run : Instant → String → Io S (Result (Option (Run V)))
  pub list_runs_for_job : Instant → String → ℕ → Io S (Result (List (Run V)))
  pub list_runs_filtered :
      Instant → Option String → Option RunStatus → ℕ → ℕ → Io S (Result (List (Run V)))
  pub claim_next_queued : Instant → String → String → Instant → ℕ → Io S (Result (Option (Run V)))
  pub claim_run_by_id :
      Instant → String → String → String → Instant → ℕ → Io S (Result (Option (Run V)))
  pub renew_run_lease : Instant → String → String → Instant → ℕ → Io S (Result Bool)
  pub reclaim_expired_run_leases : Instant → Instant → Io S (Result (List String))
  pub append_revision : Instant → JobRevision V → Io S (Result (Unit {0}))
  pub list_revisions : Instant → String → Io S (Result (List (JobRevision V)))
  pub upsert_script : Instant → Script V → Io S (Result (Unit {0}))
  pub get_script : Instant → String → Io S (Result (Option (Script V)))
  pub try_claim_run_once : Instant → String → String → Instant → ℕ → Io S (Result Bool)
  pub mark_run_once_completed : Instant → String → Instant → Io S (Result (Unit {0}))
  pub release_run_once_claim : Instant → String → String → Instant → Io S (Result (Unit {0}))
  pub find_due_job_ids_in_partitions : Instant → List ℕ → Instant → ℕ → Io S (Result (List String))
  pub min_next_run_at_in_partitions : Instant → List ℕ → Io S (Result (Option Instant))
  pub claim_job_for_tick : Instant → String → String → Instant → ℕ → Io S (Result Bool)
  pub release_job_tick_claim : Instant → String → Io S (Result (Unit {0}))
  pub persist_post_tick_job_state : Instant → String → Option Instant → Io S (Result (Unit {0}))
  pub try_acquire_leader : Instant → String → ℕ → Io S (Result Bool)
  pub renew_leader_lease : Instant → String → ℕ → Io S (Result (Unit {0}))
  pub get_leader : Instant → Io S (Result (Option SchedulerLeader))
  pub upsert_partition_assignment : Instant → PartitionAssignment → Io S (Result (Unit {0}))
  pub list_partition_assignments : Instant → Io S (Result (List PartitionAssignment))
  pub register_worker : Instant → Worker V → Io S (Result (Unit {0}))
  pub heartbeat_worker : Instant → String → Instant → Io S (Result (Unit {0}))

-- A run that was claimed joins the result.
abbrev prepend {ℓ} : {A : Type ℓ} → Option A → List A → List A
prepend none xs = xs
prepend (some x) xs = x ∷ xs

module _ {V S : Type 0} (db : SchedulerStore V S) where
  -- The default body: the ids one after another; a store error ends the loop.
  unfoldable pub claim_runs_by_ids :
      Instant → List String → String → String → Instant → ℕ → Io S (Result (List (Run V)))
  claim_runs_by_ids utc [] pool_id worker_id now ttl = pure (ok [])
  claim_runs_by_ids utc (run_id ∷ run_ids) pool_id worker_id now ttl = do
    claimed ← db.claim_run_by_id utc run_id pool_id worker_id now ttl
    try_ok claimed λ run. do
      rest ← claim_runs_by_ids utc run_ids pool_id worker_id now ttl
      try_ok rest λ runs. pure (ok (prepend run runs))
