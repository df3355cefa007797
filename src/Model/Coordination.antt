-- ===== src/Model/Coordination.antt =====
-- chronon-core/src/models: revisions, scripts, the leader row, partitions and workers.
use chronon.Base.{Option, String, ℤ, Instant}

pub record JobRevision (V : Type 0) : Type 0 where
  pub revision_id : String
  pub job_id : String
  pub revision_number : ℤ
  pub changed_at : Instant
  pub changed_by_actor_json : V
  pub snapshot_json : V

pub record Script (V : Type 0) : Type 0 where
  pub script_id : String
  pub script_name : String
  pub signature_json : V
  pub signature_hash : String
  pub created_at : Instant

pub record SchedulerLeader : Type 0 where
  pub leader_id : String
  pub leader_instance_id : String
  pub leader_lease_until : Instant
  pub last_heartbeat_at : Instant

pub record PartitionAssignment : Type 0 where
  pub partition_id : String
  pub owner_instance_id : String
  pub lease_until : Instant
  pub updated_at : Instant

pub data WorkerStatus : Type 0 where
  online draining offline : WorkerStatus

pub record Worker (V : Type 0) : Type 0 where
  pub worker_id : String
  pub pool_id : String
  pub cell_id : Option String
  pub status : WorkerStatus
  pub last_heartbeat_at : Instant
  pub capacity_json : Option V
  pub created_at : Instant
  pub updated_at : Instant
