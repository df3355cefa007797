-- ===== src/Sql/Stored/Runs.antt =====
-- What is stored is read back: runs.
use chronon.Base.{◌≡◌, ◌∙◌}
use chronon.Model.Error.{ok}
use chronon.Model.Run.{Run}
use chronon.Sql.Columns.{SqlRow}
use chronon.Sql.Json.{SerdeJson, ReadsBack, ReadsBackOpt}
use chronon.Sql.Names.{run_status_to_str}
use chronon.Sql.Parsing.{parse-run_status_to_str}
use chronon.Sql.Stored.{encode_json-Stores, encode_json_opt-Stores}
use chronon.Sql.RunRow

module _ {V : Type 0} (serde : SerdeJson V) where
  row_to_run-Holds :
      (row : SqlRow) (r : RunRow.RunRow)
      → RunRow.Holds row r
      → RunRow.row_to_run serde row ≡ RunRow.to_model serde r
  unfolding RunRow.row_to_run
  row_to_run-Holds row r h = rw (
    h.status, h.run_id, h.job_id, h.script_name, h.parent_run_id, h.root_run_id, h.child_index,
    h.scheduled_for, h.started_at, h.finished_at, h.duration_ms, h.attempt, h.instance_id,
    h.placement_json, h.pool_id, h.actor_json, h.params_json, h.stdout_text, h.stderr_text,
    h.error_json, h.stats_json, h.claimed_by, h.claim_lease_until,
  )

  -- Each JSON value of the run is read back.
  abbrev pub RunReadsBack : Run V → Type 0
  RunReadsBack run =
      ReadsBackOpt serde run.placement_json
      × ReadsBack serde run.actor_json
      × ReadsBack serde run.params_json
      × ReadsBackOpt serde run.error_json
      × ReadsBackOpt serde run.stats_json

  run_stored :
      (run : Run V)
      → RunReadsBack run
      → (r : RunRow.RunRow) × (RunRow.from_model serde run ≡ ok r)
        × (RunRow.to_model serde r ≡ ok run)
  unfolding RunRow.from_model RunRow.to_model
  run_stored run reads =
      let (placement_json, placement_json_written, placement_json_back) =
        encode_json_opt-Stores serde run.placement_json (reads.0) in
      let (actor_json, actor_json_written, actor_json_back) =
        encode_json-Stores serde run.actor_json (reads.1) in
      let (params_json, params_json_written, params_json_back) =
        encode_json-Stores serde run.params_json (reads.2) in
      let (error_json, error_json_written, error_json_back) =
        encode_json_opt-Stores serde run.error_json (reads.3) in
      let (stats_json, stats_json_written, stats_json_back) =
        encode_json_opt-Stores serde run.stats_json (reads.4) in
      (
        record {
          run_id = run.run_id;
          job_id = run.job_id;
          script_name = run.script_name;
          parent_run_id = run.parent_run_id;
          root_run_id = run.root_run_id;
          child_index = run.child_index;
          scheduled_for = run.scheduled_for;
          started_at = run.started_at;
          finished_at = run.finished_at;
          duration_ms = run.duration_ms;
          status = run_status_to_str run.status;
          attempt = run.attempt;
          instance_id = run.instance_id;
          placement_json = placement_json;
          pool_id = run.pool_id;
          actor_json = actor_json;
          params_json = params_json;
          stdout_text = run.stdout_text;
          stderr_text = run.stderr_text;
          error_json = error_json;
          stats_json = stats_json;
          claimed_by = run.claimed_by;
          claim_lease_until = run.claim_lease_until;
        },
        rw (
          placement_json_written, actor_json_written, params_json_written, error_json_written,
          stats_json_written,
        ),
        rw (
          parse-run_status_to_str run.status,
          placement_json_back,
          actor_json_back,
          params_json_back,
          error_json_back,
          stats_json_back,
        ),
      )

  -- Where the JSON library reads back each JSON value of a run, and the columns of a row hold all that
  -- the run is written as, reading the row gives that run in every field, and does not fail.
  pub row_to_run-from_model :
      (run : Run V) (row : SqlRow)
      → RunReadsBack run
      → ((r : RunRow.RunRow) → RunRow.from_model serde run ≡ ok r → RunRow.Holds row r)
      → RunRow.row_to_run serde row ≡ ok run
  row_to_run-from_model run row reads held =
      let (r, written, back) = run_stored run reads in
      row_to_run-Holds row r (held r written) ∙ back
