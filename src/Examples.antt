-- ===== src/Examples.antt =====
-- Runs of the model on small concrete inputs: the rows, stores and clocks that they share.
pub mod StoreRuns
pub mod WorkerRuns
pub mod TickRuns
pub mod ServiceRuns
pub mod SqlRuns
pub mod QueueRuns
pub mod ShareRuns
pub mod RedactRuns
pub mod HttpRuns
use chronon.Base.{
  ℕ, ◌+◌, ◌*◌, Option, none, some, Bool, true, false, List, [], ◌∷◌, String, pos, Instant,
  nanos_per_sec,
}
use chronon.Model.Job.{Job, cron, run_once}
use chronon.Model.Run.{Run, Json, for_job}
use chronon.Mem.State.{Store, new}
use chronon.Mem.Claims.History.{JobCall, upserts, run_calls}

-- JSON values are texts.
abbrev pub json : Json String
json = record { null = "null"; empty_object = "{}"; message = λ m. m }

-- `n` seconds after the epoch.
abbrev pub at : ℕ → Instant
at n = n * nanos_per_sec

-- A clock that stands still.
abbrev pub still : ℕ → ℕ → Instant
still n k = at n

abbrev pub nightly : Job String
nightly = record {
  job_id = "job-1";
  job_name = "nightly";
  script_name = "backup";
  script_sig_hash = "";
  enabled = true;
  schedule_kind = cron;
  cron_expr = some "every minute";
  timezone = none;
  run_once_at = none;
  run_once_claimed_at = none;
  run_once_claimed_by = none;
  run_once_completed_at = none;
  run_once_claim_expires_at = none;
  partition_hash = some (pos 3);
  claim_lease_id = none;
  claim_lease_until = none;
  pool = none;
  region = none;
  placement_json = none;
  actor_json = "system";
  params_json = "{}";
  concurrency = pos 5;
  timeout_ms = none;
  retry_policy_json = "{}";
  misfire_policy_json = "{}";
  parent_limits_json = none;
  next_run_at = some (at 60);
  current_revision = pos 1;
  updated_at = at 0;
  created_at = at 0;
}

abbrev pub launch : Job String
launch = record nightly { job_id = "job-2"; job_name = "launch"; schedule_kind = run_once }

abbrev pub one_job : List (JobCall String)
one_job = upserts nightly ∷ []

abbrev pub two_jobs : List (JobCall String)
two_jobs = upserts nightly ∷ upserts launch ∷ []

abbrev pub queued_run : Run String
queued_run = for_job json "run-1" "job-1" "backup" (at 60)
