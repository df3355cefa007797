-- ===== src/Sql/WorkerRow.antt =====
-- chronon-backend-sql-common/src/row/worker.rs: a worker as a SQL row, and back.
use chronon.Base.{String, Option, Instant, ◌≡◌}
use chronon.Model.Error.{Result, ok}
use chronon.Model.Coordination.{Worker}
use chronon.Sql.Columns.{SqlRow}
use chronon.Sql.Json.{SerdeJson, ◌>>=◌, encode_json_opt, decode_json_opt}
use chronon.Sql.Names.{parse_worker_status, worker_status_to_str}

pub record WorkerRow : Type 0 where
  pub worker_id : String
  pub pool_id : String
  pub cell_id : Option String
  pub status : String
  pub last_heartbeat_at : Instant
  pub capacity_json : Option String
  pub created_at : Instant
  pub updated_at : Instant

module _ {V : Type 0} (serde : SerdeJson V) where
  unfoldable pub from_model : Worker V → Result WorkerRow
  from_model worker = do
    capacity_json ← encode_json_opt serde worker.capacity_json
    ok (record {
      worker_id = worker.worker_id;
      pool_id = worker.pool_id;
      cell_id = worker.cell_id;
      status = worker_status_to_str worker.status;
      last_heartbeat_at = worker.last_heartbeat_at;
      capacity_json = capacity_json;
      created_at = worker.created_at;
      updated_at = worker.updated_at;
    })

  unfoldable pub to_model : WorkerRow → Result (Worker V)
  to_model row = do
    status ← parse_worker_status row.status
    capacity_json ← decode_json_opt serde row.capacity_json
    ok (record {
      worker_id = row.worker_id;
      pool_id = row.pool_id;
      cell_id = row.cell_id;
      status = status;
      last_heartbeat_at = row.last_heartbeat_at;
      capacity_json = capacity_json;
      created_at = row.created_at;
      updated_at = row.updated_at;
    })

  unfoldable pub row_to_worker : SqlRow → Result (Worker V)
  row_to_worker row = do
    status ← row.text "status"
    worker_id ← row.text "worker_id"
    pool_id ← row.text "pool_id"
    cell_id ← row.text_opt "cell_id"
    last_heartbeat_at ← row.time "last_heartbeat_at"
    capacity_json ← row.text_opt "capacity_json"
    created_at ← row.time "created_at"
    updated_at ← row.time "updated_at"
    to_model (record {
      worker_id = worker_id;
      pool_id = pool_id;
      cell_id = cell_id;
      status = status;
      last_heartbeat_at = last_heartbeat_at;
      capacity_json = capacity_json;
      created_at = created_at;
      updated_at = updated_at;
    })

-- The row gives, in each column, what was bound to it.
pub record Holds (row : SqlRow) (r : WorkerRow) : Type 0 where
  pub worker_id : row.text "worker_id" ≡ ok r.worker_id
  pub pool_id : row.text "pool_id" ≡ ok r.pool_id
  pub cell_id : row.text_opt "cell_id" ≡ ok r.cell_id
  pub status : row.text "status" ≡ ok r.status
  pub last_heartbeat_at : row.time "last_heartbeat_at" ≡ ok r.last_heartbeat_at
  pub capacity_json : row.text_opt "capacity_json" ≡ ok r.capacity_json
  pub created_at : row.time "created_at" ≡ ok r.created_at
  pub updated_at : row.time "updated_at" ≡ ok r.updated_at
