-- ===== src/Sql/Stored/Jobs.antt =====
-- What is stored is read back: jobs.
use chronon.Base.{◌≡◌, ◌∙◌}
use chronon.Model.Error.{ok}
use chronon.Model.Job.{Job}
use chronon.Sql.Columns.{SqlRow}
use chronon.Sql.Json.{SerdeJson, ReadsBack, ReadsBackOpt}
use chronon.Sql.Names.{schedule_kind_to_str}
use chronon.Sql.Parsing.{parse-schedule_kind_to_str}
use chronon.Sql.Stored.{encode_json-Stores, encode_json_opt-Stores}
use chronon.Sql.JobRow

module _ {V : Type 0} (serde : SerdeJson V) where
  row_to_job-Holds :
      (row : SqlRow) (r : JobRow.JobRow)
      → JobRow.Holds row r
      → JobRow.row_to_job serde row ≡ JobRow.to_model serde r
  unfolding JobRow.row_to_job
  row_to_job-Holds row r h = rw (
    JobRow.read_enabled-Flagged row r.enabled h.enabled,
    h.schedule_kind,
    h.job_id,
    h.job_name,
    h.script_name,
    h.script_sig_hash,
    h.cron_expr,
    h.timezone,
    h.run_once_at,
    h.run_once_claimed_at,
    h.run_once_claimed_by,
    h.run_once_completed_at,
    h.run_once_claim_expires_at,
    h.partition_hash,
    h.claim_lease_id,
    h.claim_lease_until,
    h.pool,
    h.region,
    h.placement_json,
    h.actor_json,
    h.params_json,
    h.concurrency,
    h.timeout_ms,
    h.retry_policy_json,
    h.misfire_policy_json,
    h.parent_limits_json,
    h.next_run_at,
    h.current_revision,
    h.updated_at,
    h.created_at,
  )

  -- Each JSON value of the job is read back.
  abbrev pub JobReadsBack : Job V → Type 0
  JobReadsBack job =
      ReadsBackOpt serde job.placement_json
      × ReadsBack serde job.actor_json
      × ReadsBack serde job.params_json
      × ReadsBack serde job.retry_policy_json
      × ReadsBack serde job.misfire_policy_json
      × ReadsBackOpt serde job.parent_limits_json

  job_stored :
      (job : Job V)
      → JobReadsBack job
      → (r : JobRow.JobRow) × (JobRow.from_model serde job ≡ ok r)
        × (JobRow.to_model serde r ≡ ok job)
  unfolding JobRow.from_model JobRow.to_model
  job_stored job reads =
      let (placement_json, placement_json_written, placement_json_back) =
        encode_json_opt-Stores serde job.placement_json (reads.0) in
      let (actor_json, actor_json_written, actor_json_back) =
        encode_json-Stores serde job.actor_json (reads.1) in
      let (params_json, params_json_written, params_json_back) =
        encode_json-Stores serde job.params_json (reads.2) in
      let (retry_policy_json, retry_policy_json_written, retry_policy_json_back) =
        encode_json-Stores serde job.retry_policy_json (reads.3) in
      let (misfire_policy_json, misfire_policy_json_written, misfire_policy_json_back) =
        encode_json-Stores serde job.misfire_policy_json (reads.4) in
      let (parent_limits_json, parent_limits_json_written, parent_limits_json_back) =
        encode_json_opt-Stores serde job.parent_limits_json (reads.5) in
      (
        record {
          job_id = job.job_id;
          job_name = job.job_name;
          script_name = job.script_name;
          script_sig_hash = job.script_sig_hash;
          enabled = job.enabled;
          schedule_kind = schedule_kind_to_str job.schedule_kind;
          cron_expr = job.cron_expr;
          timezone = job.timezone;
          run_once_at = job.run_once_at;
          run_once_claimed_at = job.run_once_claimed_at;
          run_once_claimed_by = job.run_once_claimed_by;
          run_once_completed_at = job.run_once_completed_at;
          run_once_claim_expires_at = job.run_once_claim_expires_at;
          partition_hash = job.partition_hash;
          claim_lease_id = job.claim_lease_id;
          claim_lease_until = job.claim_lease_until;
          pool = job.pool;
          region = job.region;
          placement_json = placement_json;
          actor_json = actor_json;
          params_json = params_json;
          concurrency = job.concurrency;
          timeout_ms = job.timeout_ms;
          retry_policy_json = retry_policy_json;
          misfire_policy_json = misfire_policy_json;
          parent_limits_json = parent_limits_json;
          next_run_at = job.next_run_at;
          current_revision = job.current_revision;
          updated_at = job.updated_at;
          created_at = job.created_at;
        },
        rw (
          placement_json_written, actor_json_written, params_json_written,
          retry_policy_json_written, misfire_policy_json_written, parent_limits_json_written,
        ),
        rw (
          parse-schedule_kind_to_str job.schedule_kind,
          placement_json_back,
          actor_json_back,
          params_json_back,
          retry_policy_json_back,
          misfire_policy_json_back,
          parent_limits_json_back,
        ),
      )

  -- Where the JSON library reads back each JSON value of a job, and the columns of a row hold all that
  -- the job is written as, reading the row gives that job in every field, and does not fail.
  pub row_to_job-from_model :
      (job : Job V) (row : SqlRow)
      → JobReadsBack job
      → ((r : JobRow.JobRow) → JobRow.from_model serde job ≡ ok r → JobRow.Holds row r)
      → JobRow.row_to_job serde row ≡ ok job
  row_to_job-from_model job row reads held =
      let (r, written, back) = job_stored job reads in
      row_to_job-Holds row r (held r written) ∙ back
