-- ===== src/Examples/SqlRuns.antt =====
-- SQL rows on concrete columns.
use Prim.Native.Char.{Char, code}
use Prim.Native.String.{◌++◌ as append}
use chronon.Base.{
  String, Bool, false, ◌||◌, ◌⊎◌, inl, eqb, ◌≡◌, refl, inr, subst, pos, text_discrete, ◌==◌,
  if◌then◌else◌,
}
use chronon.Model.Error.{ok, err, ChrononError, storage_error}
use chronon.Model.Run.{for_job, new_run}
use chronon.Sql.Columns.{SqlRow}
use chronon.Sql.Json.{SerdeJson, encode_json, encode_json_opt}
use chronon.Sql.JobRow
use chronon.Sql.RunRow
use chronon.Sql.Names.{run_status_to_str, schedule_kind_to_str}
use chronon.Sql.Stored.Jobs.{row_to_job-from_model}
use chronon.Sql.Stored.Runs.{row_to_run-from_model}
use chronon.Examples.{nightly, queued_run}

-- Texts as JSON strings, in quotation marks. One that has a quotation mark in it is not written.
abbrev has_quote : String → Bool
has_quote String.[] = false
has_quote (String.◌∷◌ c s) = eqb (code c) 0x22 || has_quote s

abbrev kept : Char → String ⊎ String → String ⊎ String
kept c (inl e) = inl e
kept c (inr s) = inr (String.◌∷◌ c s)

-- Up to the closing mark, which ends the text.
abbrev unquote : String → String ⊎ String
unquote String.[] = inl "no closing mark"
unquote (String.◌∷◌ c String.[]) = if eqb (code c) 0x22 then inr "" else inl "no closing mark"
unquote (String.◌∷◌ c (String.◌∷◌ d s)) =
    let rest = unquote (String.◌∷◌ d s) in
    if eqb (code c) 0x22 then inl "trailing characters" else kept c rest

abbrev parse_text : String → String ⊎ String
parse_text String.[] = inl "no text"
parse_text (String.◌∷◌ c s) =
    let rest = unquote s in if eqb (code c) 0x22 then rest else inl "no opening mark"

abbrev serde : SerdeJson String
serde = record {
  to_string = λ v. if has_quote v then inl "not supported" else inr (append "\"" (append v "\""));
  from_str = parse_text;
}

abbrev missing : ChrononError
missing = storage_error "no column found"

-- The columns that hold a row.
abbrev run_columns : RunRow.RunRow → SqlRow
run_columns r = record {
  text = λ c.
      if c == "run_id"
      then ok r.run_id
      else (if c == "script_name"
          then ok r.script_name
          else (if c == "status"
              then ok r.status
              else (if c == "actor_json"
                  then ok r.actor_json
                  else (if c == "params_json" then ok r.params_json else err missing))));
  text_opt = λ c.
      if c == "job_id"
      then ok r.job_id
      else (if c == "parent_run_id"
          then ok r.parent_run_id
          else (if c == "root_run_id"
              then ok r.root_run_id
              else (if c == "instance_id"
                  then ok r.instance_id
                  else (if c == "placement_json"
                      then ok r.placement_json
                      else (if c == "pool_id"
                          then ok r.pool_id
                          else (if c == "stdout_text"
                              then ok r.stdout_text
                              else (if c == "stderr_text"
                                  then ok r.stderr_text
                                  else (if c == "error_json"
                                      then ok r.error_json
                                      else (if c == "stats_json"
                                          then ok r.stats_json
                                          else (if c == "claimed_by"
                                              then ok r.claimed_by
                                              else err missing))))))))));
  time = λ c. if c == "scheduled_for" then ok r.scheduled_for else err missing;
  time_opt = λ c.
      if c == "started_at"
      then ok r.started_at
      else (if c == "finished_at"
          then ok r.finished_at
          else (if c == "claim_lease_until" then ok r.claim_lease_until else err missing));
  i32 = λ c. if c == "attempt" then ok r.attempt else err missing;
  i32_opt = λ c. if c == "child_index" then ok r.child_index else err missing;
  i64_opt = λ c. if c == "duration_ms" then ok r.duration_ms else err missing;
  flag = λ c. err missing;
}

run_columns-Holds : (r : RunRow.RunRow) → RunRow.Holds (run_columns r) r
unfolding text_discrete
run_columns-Holds r = record {
  run_id = refl;
  job_id = refl;
  script_name = refl;
  parent_run_id = refl;
  root_run_id = refl;
  child_index = refl;
  scheduled_for = refl;
  started_at = refl;
  finished_at = refl;
  duration_ms = refl;
  status = refl;
  attempt = refl;
  instance_id = refl;
  placement_json = refl;
  pool_id = refl;
  actor_json = refl;
  params_json = refl;
  stdout_text = refl;
  stderr_text = refl;
  error_json = refl;
  stats_json = refl;
  claimed_by = refl;
  claim_lease_until = refl;
}

-- The columns that hold a row, the flag as a number.
abbrev job_columns : JobRow.JobRow → SqlRow
job_columns r = record {
  text = λ c.
      if c == "job_id"
      then ok r.job_id
      else (if c == "job_name"
          then ok r.job_name
          else (if c == "script_name"
              then ok r.script_name
              else (if c == "script_sig_hash"
                  then ok r.script_sig_hash
                  else (if c == "schedule_kind"
                      then ok r.schedule_kind
                      else (if c == "actor_json"
                          then ok r.actor_json
                          else (if c == "params_json"
                              then ok r.params_json
                              else (if c == "retry_policy_json"
                                  then ok r.retry_policy_json
                                  else (if c == "misfire_policy_json"
                                      then ok r.misfire_policy_json
                                      else err missing))))))));
  text_opt = λ c.
      if c == "cron_expr"
      then ok r.cron_expr
      else (if c == "timezone"
          then ok r.timezone
          else (if c == "run_once_claimed_by"
              then ok r.run_once_claimed_by
              else (if c == "claim_lease_id"
                  then ok r.claim_lease_id
                  else (if c == "pool"
                      then ok r.pool
                      else (if c == "region"
                          then ok r.region
                          else (if c == "placement_json"
                              then ok r.placement_json
                              else (if c == "parent_limits_json"
                                  then ok r.parent_limits_json
                                  else err missing)))))));
  time = λ c.
      if c == "updated_at"
      then ok r.updated_at
      else (if c == "created_at" then ok r.created_at else err missing);
  time_opt = λ c.
      if c == "run_once_at"
      then ok r.run_once_at
      else (if c == "run_once_claimed_at"
          then ok r.run_once_claimed_at
          else (if c == "run_once_completed_at"
              then ok r.run_once_completed_at
              else (if c == "run_once_claim_expires_at"
                  then ok r.run_once_claim_expires_at
                  else (if c == "claim_lease_until"
                      then ok r.claim_lease_until
                      else (if c == "next_run_at" then ok r.next_run_at else err missing)))));
  i32 = λ c.
      if c == "enabled"
      then ok (pos (if r.enabled then 1 else 0))
      else (if c == "concurrency"
          then ok r.concurrency
          else (if c == "current_revision" then ok r.current_revision else err missing));
  i32_opt = λ c. err missing;
  i64_opt = λ c.
      if c == "partition_hash"
      then ok r.partition_hash
      else (if c == "timeout_ms" then ok r.timeout_ms else err missing);
  flag = λ c. err missing;
}

job_columns-Holds : (r : JobRow.JobRow) → JobRow.Holds (job_columns r) r
unfolding text_discrete
job_columns-Holds r = record {
  job_id = refl;
  job_name = refl;
  script_name = refl;
  script_sig_hash = refl;
  enabled = inr (missing, refl, refl);
  schedule_kind = refl;
  cron_expr = refl;
  timezone = refl;
  run_once_at = refl;
  run_once_claimed_at = refl;
  run_once_claimed_by = refl;
  run_once_completed_at = refl;
  run_once_claim_expires_at = refl;
  partition_hash = refl;
  claim_lease_id = refl;
  claim_lease_until = refl;
  pool = refl;
  region = refl;
  placement_json = refl;
  actor_json = refl;
  params_json = refl;
  concurrency = refl;
  timeout_ms = refl;
  retry_policy_json = refl;
  misfire_policy_json = refl;
  parent_limits_json = refl;
  next_run_at = refl;
  current_revision = refl;
  updated_at = refl;
  created_at = refl;
}

held_run :
    (stored : RunRow.RunRow) (r : RunRow.RunRow)
    → RunRow.from_model serde queued_run ≡ ok stored
    → RunRow.from_model serde queued_run ≡ ok r
    → RunRow.Holds (run_columns stored) r
held_run stored r p q =
    let same : stored ≡ r = cc (p, q) in
    subst (λ x. RunRow.Holds (run_columns stored) x) same (run_columns-Holds stored)

held_job :
    (stored : JobRow.JobRow) (r : JobRow.JobRow)
    → JobRow.from_model serde nightly ≡ ok stored
    → JobRow.from_model serde nightly ≡ ok r
    → JobRow.Holds (job_columns stored) r
held_job stored r p q =
    let same : stored ≡ r = cc (p, q) in
    subst (λ x. JobRow.Holds (job_columns stored) x) same (job_columns-Holds stored)

abbrev run_row : RunRow.RunRow
run_row = record {
  run_id = queued_run.run_id;
  job_id = queued_run.job_id;
  script_name = queued_run.script_name;
  parent_run_id = queued_run.parent_run_id;
  root_run_id = queued_run.root_run_id;
  child_index = queued_run.child_index;
  scheduled_for = queued_run.scheduled_for;
  started_at = queued_run.started_at;
  finished_at = queued_run.finished_at;
  duration_ms = queued_run.duration_ms;
  status = "queued";
  attempt = queued_run.attempt;
  instance_id = queued_run.instance_id;
  placement_json = queued_run.placement_json;
  pool_id = queued_run.pool_id;
  actor_json = "\"null\"";
  params_json = "\"{}\"";
  stdout_text = queued_run.stdout_text;
  stderr_text = queued_run.stderr_text;
  error_json = queued_run.error_json;
  stats_json = queued_run.stats_json;
  claimed_by = queued_run.claimed_by;
  claim_lease_until = queued_run.claim_lease_until;
}

run_written : RunRow.from_model serde queued_run ≡ ok run_row
unfolding RunRow.from_model encode_json encode_json_opt run_status_to_str for_job new_run
run_written = refl

row_to_run-from_model_example : RunRow.row_to_run serde (run_columns run_row) ≡ ok queued_run
unfolding for_job new_run
row_to_run-from_model_example =
    row_to_run-from_model serde queued_run (run_columns run_row)
      (tt, ("\"null\"", refl, refl), ("\"{}\"", refl, refl), tt, tt)
      (λ r written. held_run run_row r run_written written)

abbrev job_row : JobRow.JobRow
job_row = record {
  job_id = nightly.job_id;
  job_name = nightly.job_name;
  script_name = nightly.script_name;
  script_sig_hash = nightly.script_sig_hash;
  enabled = nightly.enabled;
  schedule_kind = "cron";
  cron_expr = nightly.cron_expr;
  timezone = nightly.timezone;
  run_once_at = nightly.run_once_at;
  run_once_claimed_at = nightly.run_once_claimed_at;
  run_once_claimed_by = nightly.run_once_claimed_by;
  run_once_completed_at = nightly.run_once_completed_at;
  run_once_claim_expires_at = nightly.run_once_claim_expires_at;
  partition_hash = nightly.partition_hash;
  claim_lease_id = nightly.claim_lease_id;
  claim_lease_until = nightly.claim_lease_until;
  pool = nightly.pool;
  region = nightly.region;
  placement_json = nightly.placement_json;
  actor_json = "\"system\"";
  params_json = "\"{}\"";
  concurrency = nightly.concurrency;
  timeout_ms = nightly.timeout_ms;
  retry_policy_json = "\"{}\"";
  misfire_policy_json = "\"{}\"";
  parent_limits_json = nightly.parent_limits_json;
  next_run_at = nightly.next_run_at;
  current_revision = nightly.current_revision;
  updated_at = nightly.updated_at;
  created_at = nightly.created_at;
}

job_written : JobRow.from_model serde nightly ≡ ok job_row
unfolding JobRow.from_model encode_json encode_json_opt schedule_kind_to_str
job_written = refl

row_to_job-from_model_example : JobRow.row_to_job serde (job_columns job_row) ≡ ok nightly
row_to_job-from_model_example =
    row_to_job-from_model serde nightly (job_columns job_row)
      (
        tt,
        ("\"system\"", refl, refl),
        ("\"{}\"", refl, refl),
        ("\"{}\"", refl, refl),
        ("\"{}\"", refl, refl),
        tt,
      )
      (λ r written. held_job job_row r job_written written)
