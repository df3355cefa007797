-- ===== src/Mem/State.antt =====
-- chronon-backend-mem/src/store/mod.rs: the maps of the in-memory store. An operation that takes its
-- locks for its whole body is one step on the record of all maps; two of them, `remove_job` and
-- `get_job_by_name`, take one after the other.
use chronon.Base.{Option, none, List, [], String}
use chronon.Model.Job.{Job}
use chronon.Model.Run.{Run}
use chronon.Model.Coordination.{JobRevision, Script, SchedulerLeader, PartitionAssignment, Worker}

abbrev pub leader_row_id : String
leader_row_id = "singleton"

pub record Store (V : Type 0) : Type 0 where
  pub jobs : List (String × Job V)
  pub jobs_by_name : List (String × String)
  pub runs : List (String × Run V)
  pub revisions : List (String × List (JobRevision V))
  pub scripts : List (String × Script V)
  pub leader : Option SchedulerLeader
  pub partitions : List (String × PartitionAssignment)
  pub workers : List (String × Worker V)

unfoldable pub new : (V : Type 0) → Store V
new V = record {
  jobs = [];
  jobs_by_name = [];
  runs = [];
  revisions = [];
  scripts = [];
  leader = none;
  partitions = [];
  workers = [];
}
