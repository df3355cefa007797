-- ===== src/Sql/LeaderRow.antt =====
-- chronon-backend-sql-common/src/row/leader.rs: the leader as a SQL row, and back.
use chronon.Base.{String, Instant, ◌≡◌}
use chronon.Model.Error.{Result, ok}
use chronon.Model.Coordination.{SchedulerLeader}
use chronon.Sql.Columns.{SqlRow}
use chronon.Sql.Json.{◌>>=◌}

pub record SchedulerLeaderRow : Type 0 where
  pub leader_id : String
  pub leader_instance_id : String
  pub leader_lease_until : Instant
  pub last_heartbeat_at : Instant

unfoldable pub from_model : SchedulerLeader → SchedulerLeaderRow
from_model leader = record {
  leader_id = leader.leader_id;
  leader_instance_id = leader.leader_instance_id;
  leader_lease_until = leader.leader_lease_until;
  last_heartbeat_at = leader.last_heartbeat_at;
}

unfoldable pub to_model : SchedulerLeaderRow → SchedulerLeader
to_model row = record {
  leader_id = row.leader_id;
  leader_instance_id = row.leader_instance_id;
  leader_lease_until = row.leader_lease_until;
  last_heartbeat_at = row.last_heartbeat_at;
}

unfoldable pub row_to_leader : SqlRow → Result SchedulerLeader
row_to_leader row = do
  leader_id ← row.text "leader_id"
  leader_instance_id ← row.text "leader_instance_id"
  leader_lease_until ← row.time "leader_lease_until"
  last_heartbeat_at ← row.time "last_heartbeat_at"
  ok (
      to_model (record {
        leader_id = leader_id;
        leader_instance_id = leader_instance_id;
        leader_lease_until = leader_lease_until;
        last_heartbeat_at = last_heartbeat_at;
      }))

-- The row gives, in each column, what was bound to it.
pub record Holds (row : SqlRow) (r : SchedulerLeaderRow) : Type 0 where
  pub leader_id : row.text "leader_id" ≡ ok r.leader_id
  pub leader_instance_id : row.text "leader_instance_id" ≡ ok r.leader_instance_id
  pub leader_lease_until : row.time "leader_lease_until" ≡ ok r.leader_lease_until
  pub last_heartbeat_at : row.time "last_heartbeat_at" ≡ ok r.last_heartbeat_at
