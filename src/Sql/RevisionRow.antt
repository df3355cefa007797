-- ===== src/Sql/RevisionRow.antt =====
-- chronon-backend-sql-common/src/row/revision.rs: a revision as a SQL row, and back.
use chronon.Base.{String, ℤ, Instant, ◌≡◌}
use chronon.Model.Error.{Result, ok}
use chronon.Model.Coordination.{JobRevision}
use chronon.Sql.Columns.{SqlRow}
use chronon.Sql.Json.{SerdeJson, ◌>>=◌, encode_json, decode_json}

pub record JobRevisionRow : Type 0 where
  pub revision_id : String
  pub job_id : String
  pub revision_number : ℤ
  pub changed_at : Instant
  pub changed_by_actor_json : String
  pub snapshot_json : String

module _ {V : Type 0} (serde : SerdeJson V) where
  unfoldable pub from_model : JobRevision V → Result JobRevisionRow
  from_model revision = do
    changed_by_actor_json ← encode_json serde revision.changed_by_actor_json
    snapshot_json ← encode_json serde revision.snapshot_json
    ok (record {
      revision_id = revision.revision_id;
      job_id = revision.job_id;
      revision_number = revision.revision_number;
      changed_at = revision.changed_at;
      changed_by_actor_json = changed_by_actor_json;
      snapshot_json = snapshot_json;
    })

  unfoldable pub to_model : JobRevisionRow → Result (JobRevision V)
  to_model row = do
    changed_by_actor_json ← decode_json serde row.changed_by_actor_json
    snapshot_json ← decode_json serde row.snapshot_json
    ok (record {
      revision_id = row.revision_id;
      job_id = row.job_id;
      revision_number = row.revision_number;
      changed_at = row.changed_at;
      changed_by_actor_json = changed_by_actor_json;
      snapshot_json = snapshot_json;
    })

  unfoldable pub row_to_revision : SqlRow → Result (JobRevision V)
  row_to_revision row = do
    revision_id ← row.text "revision_id"
    job_id ← row.text "job_id"
    revision_number ← row.i32 "revision_number"
    changed_at ← row.time "changed_at"
    changed_by_actor_json ← row.text "changed_by_actor_json"
    snapshot_json ← row.text "snapshot_json"
    to_model (record {
      revision_id = revision_id;
      job_id = job_id;
      revision_number = revision_number;
      changed_at = changed_at;
      changed_by_actor_json = changed_by_actor_json;
      snapshot_json = snapshot_json;
    })

-- The row gives, in each column, what was bound to it.
pub record Holds (row : SqlRow) (r : JobRevisionRow) : Type 0 where
  pub revision_id : row.text "revision_id" ≡ ok r.revision_id
  pub job_id : row.text "job_id" ≡ ok r.job_id
  pub revision_number : row.i32 "revision_number" ≡ ok r.revision_number
  pub changed_at : row.time "changed_at" ≡ ok r.changed_at
  pub changed_by_actor_json : row.text "changed_by_actor_json" ≡ ok r.changed_by_actor_json
  pub snapshot_json : row.text "snapshot_json" ≡ ok r.snapshot_json
