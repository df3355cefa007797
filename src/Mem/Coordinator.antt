-- ===== src/Mem/Coordinator.antt =====
-- chronon-backend-mem/src/store/coordinator.rs: revisions, scripts, leader election, partitions and
-- workers. An argument `utc` is what `Utc::now()` reads inside the call.
use Prim.Native.String.{◌++◌ as append}
use chronon.Base.{
  ℕ, Option, none, some, Bool, true, false, not, ◌&&◌, List, [], ◌∷◌, ◌++◌, String, Instant, lookup,
  insert, values, get_or, ltb, ◌==◌, plus_seconds, if◌then◌else◌,
}
use chronon.Model.Error.{Result, ok, err, Io, internal}
use chronon.Model.Coordination.{JobRevision, Script, SchedulerLeader, PartitionAssignment, Worker}
use chronon.Mem.State.{Store, leader_row_id}

-- Another instance's lease is live.
unfoldable pub is_held_by_other : String → Instant → Option SchedulerLeader → Bool
is_held_by_other instance_id now none = false
is_held_by_other instance_id now (some row) =
    ltb now row.leader_lease_until && not (row.leader_instance_id == instance_id)

unfoldable pub renew_row : Instant → String → ℕ → Option SchedulerLeader → Option SchedulerLeader
renew_row utc instance_id ttl_secs none = none
renew_row utc instance_id ttl_secs (some row) =
    if not (row.leader_instance_id == instance_id)
    then some row
    else some
        (record row { leader_lease_until = plus_seconds utc ttl_secs; last_heartbeat_at = utc })

module _ {V : Type 0} where
  unfoldable pub append_revision : JobRevision V → Io (Store V) (Result (Unit {0}))
  append_revision revision s = (
    ok tt,
    record s {
      revisions =
          insert revision.job_id (get_or (lookup revision.job_id s.revisions) [] ++ revision ∷ [])
            s.revisions;
    },
  )

  unfoldable pub list_revisions : String → Io (Store V) (Result (List (JobRevision V)))
  list_revisions job_id s = (ok (get_or (lookup job_id s.revisions) []), s)

  unfoldable pub upsert_script : Script V → Io (Store V) (Result (Unit {0}))
  upsert_script script s =
      (ok tt, record s { scripts = insert script.script_name script s.scripts })

  unfoldable pub get_script : String → Io (Store V) (Result (Option (Script V)))
  get_script script_name s = (ok (lookup script_name s.scripts), s)

  unfoldable pub try_acquire_leader : Instant → String → ℕ → Io (Store V) (Result Bool)
  unfolding is_held_by_other
  try_acquire_leader utc instance_id ttl_secs s =
      if is_held_by_other instance_id utc s.leader then (ok false, s) else (
        ok true,
        record s {
          leader = some (record {
            leader_id = leader_row_id;
            leader_instance_id = instance_id;
            leader_lease_until = plus_seconds utc ttl_secs;
            last_heartbeat_at = utc;
          });
        },
      )

  unfoldable pub renew_leader_lease : Instant → String → ℕ → Io (Store V) (Result (Unit {0}))
  unfolding renew_row
  renew_leader_lease utc instance_id ttl_secs s =
      (ok tt, record s { leader = renew_row utc instance_id ttl_secs s.leader })

  unfoldable pub get_leader : Io (Store V) (Result (Option SchedulerLeader))
  get_leader s = (ok s.leader, s)

  unfoldable pub upsert_partition_assignment :
      PartitionAssignment → Io (Store V) (Result (Unit {0}))
  upsert_partition_assignment assignment s =
      (ok tt, record s { partitions = insert assignment.partition_id assignment s.partitions })

  unfoldable pub list_partition_assignments : Io (Store V) (Result (List PartitionAssignment))
  list_partition_assignments s = (ok (values s.partitions), s)

  unfoldable pub register_worker : Worker V → Io (Store V) (Result (Unit {0}))
  register_worker worker s =
      (ok tt, record s { workers = insert worker.worker_id worker s.workers })

  unfoldable pub heartbeat_worker : String → Instant → Io (Store V) (Result (Unit {0}))
  heartbeat_worker worker_id at s = elim (lookup worker_id s.workers) [
    | none ↦ (err (internal (append "worker not registered: " worker_id)), s)
    | some worker ↦ (
      ok tt,
      record s {
        workers =
            insert worker_id (record worker { last_heartbeat_at = at; updated_at = at }) s.workers;
      },
    )
  ]
