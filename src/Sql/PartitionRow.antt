-- ===== src/Sql/PartitionRow.antt =====
-- chronon-backend-sql-common/src/row/partition.rs: a partition as a SQL row, and back.
use chronon.Base.{String, Instant, ◌≡◌}
use chronon.Model.Error.{Result, ok}
use chronon.Model.Coordination.{PartitionAssignment}
use chronon.Sql.Columns.{SqlRow}
use chronon.Sql.Json.{◌>>=◌}

pub record PartitionAssignmentRow : Type 0 where
  pub partition_id : String
  pub owner_instance_id : String
  pub lease_until : Instant
  pub updated_at : Instant

unfoldable pub from_model : PartitionAssignment → PartitionAssignmentRow
from_model assignment = record {
  partition_id = assignment.partition_id;
  owner_instance_id = assignment.owner_instance_id;
  lease_until = assignment.lease_until;
  updated_at = assignment.updated_at;
}

unfoldable pub to_model : PartitionAssignmentRow → PartitionAssignment
to_model row = record {
  partition_id = row.partition_id;
  owner_instance_id = row.owner_instance_id;
  lease_until = row.lease_until;
  updated_at = row.updated_at;
}

unfoldable pub row_to_partition : SqlRow → Result PartitionAssignment
row_to_partition row = do
  partition_id ← row.text "partition_id"
  owner_instance_id ← row.text "owner_instance_id"
  lease_until ← row.time "lease_until"
  updated_at ← row.time "updated_at"
  ok (
      to_model (record {
        partition_id = partition_id;
        owner_instance_id = owner_instance_id;
        lease_until = lease_until;
        updated_at = updated_at;
      }))

-- The row gives, in each column, what was bound to it.
pub record Holds (row : SqlRow) (r : PartitionAssignmentRow) : Type 0 where
  pub partition_id : row.text "partition_id" ≡ ok r.partition_id
  pub owner_instance_id : row.text "owner_instance_id" ≡ ok r.owner_instance_id
  pub lease_until : row.time "lease_until" ≡ ok r.lease_until
  pub updated_at : row.time "updated_at" ≡ ok r.updated_at
