-- ===== src/Sql/Stored/Others.antt =====
-- What is stored is read back: workers, revisions and scripts.
use chronon.Base.{◌≡◌, ◌∙◌}
use chronon.Model.Error.{ok}
use chronon.Model.Coordination.{Worker, JobRevision, Script}
use chronon.Sql.Columns.{SqlRow}
use chronon.Sql.Json.{SerdeJson, ReadsBack, ReadsBackOpt}
use chronon.Sql.Names.{worker_status_to_str}
use chronon.Sql.Parsing.{parse-worker_status_to_str}
use chronon.Sql.Stored.{encode_json-Stores, encode_json_opt-Stores}
use chronon.Sql.WorkerRow
use chronon.Sql.RevisionRow
use chronon.Sql.ScriptRow

module _ {V : Type 0} (serde : SerdeJson V) where
  row_to_worker-Holds :
      (row : SqlRow) (r : WorkerRow.WorkerRow)
      → WorkerRow.Holds row r
      → WorkerRow.row_to_worker serde row ≡ WorkerRow.to_model serde r
  unfolding WorkerRow.row_to_worker
  row_to_worker-Holds row r h = rw (
    h.status, h.worker_id, h.pool_id, h.cell_id, h.last_heartbeat_at, h.capacity_json, h.created_at,
    h.updated_at,
  )

  -- Each JSON value of the worker is read back.
  abbrev pub WorkerReadsBack : Worker V → Type 0
  WorkerReadsBack worker = ReadsBackOpt serde worker.capacity_json

  worker_stored :
      (worker : Worker V)
      → WorkerReadsBack worker
      → (r : WorkerRow.WorkerRow) × (WorkerRow.from_model serde worker ≡ ok r)
        × (WorkerRow.to_model serde r ≡ ok worker)
  unfolding WorkerRow.from_model WorkerRow.to_model
  worker_stored worker reads =
      let (capacity_json, capacity_json_written, capacity_json_back) =
        encode_json_opt-Stores serde worker.capacity_json reads in
      (
        record {
          worker_id = worker.worker_id;
          pool_id = worker.pool_id;
          cell_id = worker.cell_id;
          status = worker_status_to_str worker.status;
          last_heartbeat_at = worker.last_heartbeat_at;
          capacity_json = capacity_json;
          created_at = worker.created_at;
          updated_at = worker.updated_at;
        },
        rw (capacity_json_written),
        rw (parse-worker_status_to_str worker.status, capacity_json_back),
      )

  -- Where the JSON library reads back each JSON value of a worker, and the columns of a row hold all that
  -- the worker is written as, reading the row gives that worker in every field, and does not fail.
  pub row_to_worker-from_model :
      (worker : Worker V) (row : SqlRow)
      → WorkerReadsBack worker
      → ((r : WorkerRow.WorkerRow)
          → WorkerRow.from_model serde worker ≡ ok r
          → WorkerRow.Holds row r)
      → WorkerRow.row_to_worker serde row ≡ ok worker
  row_to_worker-from_model worker row reads held =
      let (r, written, back) = worker_stored worker reads in
      row_to_worker-Holds row r (held r written) ∙ back

module _ {V : Type 0} (serde : SerdeJson V) where
  row_to_revision-Holds :
      (row : SqlRow) (r : RevisionRow.JobRevisionRow)
      → RevisionRow.Holds row r
      → RevisionRow.row_to_revision serde row ≡ RevisionRow.to_model serde r
  unfolding RevisionRow.row_to_revision
  row_to_revision-Holds row r h = rw (
    h.revision_id, h.job_id, h.revision_number, h.changed_at, h.changed_by_actor_json,
    h.snapshot_json,
  )

  -- Each JSON value of the revision is read back.
  abbrev pub JobRevisionReadsBack : JobRevision V → Type 0
  JobRevisionReadsBack revision =
      ReadsBack serde revision.changed_by_actor_json × ReadsBack serde revision.snapshot_json

  revision_stored :
      (revision : JobRevision V)
      → JobRevisionReadsBack revision
      → (r : RevisionRow.JobRevisionRow) × (RevisionRow.from_model serde revision ≡ ok r)
        × (RevisionRow.to_model serde r ≡ ok revision)
  unfolding RevisionRow.from_model RevisionRow.to_model
  revision_stored revision reads =
      let (changed_by_actor_json, changed_by_actor_json_written, changed_by_actor_json_back) =
        encode_json-Stores serde revision.changed_by_actor_json (reads.0) in
      let (snapshot_json, snapshot_json_written, snapshot_json_back) =
        encode_json-Stores serde revision.snapshot_json (reads.1) in
      (
        record {
          revision_id = revision.revision_id;
          job_id = revision.job_id;
          revision_number = revision.revision_number;
          changed_at = revision.changed_at;
          changed_by_actor_json = changed_by_actor_json;
          snapshot_json = snapshot_json;
        },
        rw (changed_by_actor_json_written, snapshot_json_written),
        rw (changed_by_actor_json_back, snapshot_json_back),
      )

  -- Where the JSON library reads back each JSON value of a revision, and the columns of a row hold all that
  -- the revision is written as, reading the row gives that revision in every field, and does not fail.
  pub row_to_revision-from_model :
      (revision : JobRevision V) (row : SqlRow)
      → JobRevisionReadsBack revision
      → ((r : RevisionRow.JobRevisionRow)
          → RevisionRow.from_model serde revision ≡ ok r
          → RevisionRow.Holds row r)
      → RevisionRow.row_to_revision serde row ≡ ok revision
  row_to_revision-from_model revision row reads held =
      let (r, written, back) = revision_stored revision reads in
      row_to_revision-Holds row r (held r written) ∙ back

module _ {V : Type 0} (serde : SerdeJson V) where
  row_to_script-Holds :
      (row : SqlRow) (r : ScriptRow.ScriptRow)
      → ScriptRow.Holds row r
      → ScriptRow.row_to_script serde row ≡ ScriptRow.to_model serde r
  unfolding ScriptRow.row_to_script
  row_to_script-Holds row r h =
      rw (h.script_id, h.script_name, h.signature_json, h.signature_hash, h.created_at)

  -- Each JSON value of the script is read back.
  abbrev pub ScriptReadsBack : Script V → Type 0
  ScriptReadsBack script = ReadsBack serde script.signature_json

  script_stored :
      (script : Script V)
      → ScriptReadsBack script
      → (r : ScriptRow.ScriptRow) × (ScriptRow.from_model serde script ≡ ok r)
        × (ScriptRow.to_model serde r ≡ ok script)
  unfolding ScriptRow.from_model ScriptRow.to_model
  script_stored script reads =
      let (signature_json, signature_json_written, signature_json_back) =
        encode_json-Stores serde script.signature_json reads in
      (
        record {
          script_id = script.script_id;
          script_name = script.script_name;
          signature_json = signature_json;
          signature_hash = script.signature_hash;
          created_at = script.created_at;
        },
        rw (signature_json_written),
        rw (signature_json_back),
      )

  -- Where the JSON library reads back each JSON value of a script, and the columns of a row hold all that
  -- the script is written as, reading the row gives that script in every field, and does not fail.
  pub row_to_script-from_model :
      (script : Script V) (row : SqlRow)
      → ScriptReadsBack script
      → ((r : ScriptRow.ScriptRow)
          → ScriptRow.from_model serde script ≡ ok r
          → ScriptRow.Holds row r)
      → ScriptRow.row_to_script serde row ≡ ok script
  row_to_script-from_model script row reads held =
      let (r, written, back) = script_stored script reads in
      row_to_script-Holds row r (held r written) ∙ back
