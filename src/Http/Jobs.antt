-- ===== src/Http/Jobs.antt =====
-- chronon-axum/src/handlers.rs: the routes over jobs and runs other than the upsert.
use Prim.Native.String.{◌++◌ as append}
use chronon.Base.{
  ℕ, ◌+◌, ◌-◌, min, Option, none, some, Bool, true, false, not, ◌&&◌, ◌||◌, List, [], map, String,
  ℤ, Instant, length, take, drop, filter, leb, get_or, is_none_or, ◌==◌, if◌then◌else◌,
}
use chronon.Model.Error.{Result, ok, err, Io, ◌>>=◌, pure, flatten_ok, job_not_found, run_not_found}
use chronon.Model.Job.{Job, ScheduleKind}
use chronon.Model.Run.{Run, Json}
use chronon.Model.Status.{RunStatus, queued, claimed, running, success, failed, canceled}
use chronon.Port.{SchedulerStore}
use chronon.Http.Request.{JobResponse, job_response}
use chronon.Http.Response.{Answer, bad_request, chronon_err, accept, refuse, respond}
use chronon.Runtime.Service.{run_now_with_params_and_actor, parse_run_status}

pub record JobActionRequest (V : Type 0) : Type 0 where
  pub job_id : String
  pub params : Option V

pub record ListJobsQuery : Type 0 where
  pub job_name : Option String
  pub script_name : Option String
  pub enabled : Option Bool
  pub schedule_kind : Option String
  pub offset : Option ℕ
  pub limit : Option ℕ

pub record ListRunsQuery : Type 0 where
  pub job_id : Option String
  pub status : Option String
  pub offset : Option ℕ
  pub limit : Option ℕ

pub record RunResponse : Type 0 where
  pub run_id : String
  pub job_id : Option String
  pub script_name : String
  pub status : String
  pub scheduled_for : String
  pub started_at : Option String
  pub finished_at : Option String
  pub duration_ms : Option ℤ
  pub attempt : ℤ
  pub pool_id : Option String
  pub claimed_by : Option String

abbrev map_time : (Instant → String) → Option Instant → Option String
map_time rfc3339 none = none
map_time rfc3339 (some t) = some (rfc3339 t)

-- `Display` of a run's status
unfoldable pub status_text : RunStatus → String
status_text queued = "queued"
status_text claimed = "claimed"
status_text running = "running"
status_text success = "success"
status_text failed = "failed"
status_text canceled = "canceled"
status_text RunStatus.timeout = "timeout"

unfoldable pub run_response : {V : Type 0} → (Instant → String) → Run V → RunResponse
unfolding status_text
run_response rfc3339 run = record {
  run_id = run.run_id;
  job_id = run.job_id;
  script_name = run.script_name;
  status = status_text run.status;
  scheduled_for = rfc3339 run.scheduled_for;
  started_at = map_time rfc3339 run.started_at;
  finished_at = map_time rfc3339 run.finished_at;
  duration_ms = run.duration_ms;
  attempt = run.attempt;
  pool_id = run.pool_id;
  claimed_by = run.claimed_by;
}

abbrev pub max_list_limit : ℕ
max_list_limit = 1_000

unfoldable pub clamp_list_limit : Option ℕ → ℕ
clamp_list_limit limit = min (get_or limit 100) max_list_limit

abbrev pub kind_text : ScheduleKind → String
kind_text ScheduleKind.cron = "cron"
kind_text ScheduleKind.run_once = "run_once"
kind_text ScheduleKind.manual = "manual"

abbrev eqb_Bool : Bool → Bool → Bool
eqb_Bool true b = b
eqb_Bool false b = not b

unfoldable pub matches_query : {V : Type 0} → ListJobsQuery → Job V → Bool
matches_query query j =
    is_none_or (λ n. j.job_name == n) query.job_name
    && is_none_or (λ n. j.script_name == n) query.script_name
    && is_none_or (λ e. eqb_Bool j.enabled e) query.enabled
    && is_none_or (λ k. k == kind_text j.schedule_kind) query.schedule_kind

unfoldable pub page : {A : Type 0} → Option ℕ → Option ℕ → List A → List A
unfolding clamp_list_limit
page offset limit filtered =
    let start : ℕ = get_or offset 0 in
    if leb (length filtered) start
    then []
    else take (min (start + clamp_list_limit limit) (length filtered) - start) (drop start filtered)

abbrev pub names_kind : String → Bool
names_kind kind = kind == "cron" || kind == "run_once" || kind == "manual"

-- The jobs that a query lists.
unfoldable pub listed_jobs : {V : Type 0} → ListJobsQuery → List (Job V) → List (Job V)
unfolding page matches_query
listed_jobs query jobs = page query.offset query.limit (filter (matches_query query) jobs)

module _ {V S : Type 0} (json : Json V) (db : SchedulerStore V S) (lower : String → String)
    (rfc3339 : Instant → String) where
  answer_list : ListJobsQuery → Result (List (Job V)) → Option (Answer (List JobResponse))
  unfolding chronon_err job_response refuse
  answer_list query (err e) = chronon_err e
  answer_list query (ok jobs) =
      if is_none_or names_kind query.schedule_kind
      then accept (map (job_response rfc3339) (listed_jobs query jobs))
      else refuse bad_request (
          append "invalid schedule_kind '"
            (append (get_or query.schedule_kind "") "' (expected cron, run_once, or manual)"))

  unfoldable pub list_jobs : Instant → ListJobsQuery → Io S (Option (Answer (List JobResponse)))
  unfolding answer_list
  list_jobs utc query = do jobs ← db.list_jobs utc; pure (answer_list query jobs)

  abbrev answer_job : String → Option (Job V) → Option (Answer JobResponse)
  answer_job job_id (some job) = accept (job_response rfc3339 job)
  answer_job job_id none = chronon_err (job_not_found job_id)

  unfoldable pub get_job : Instant → String → Io S (Option (Answer JobResponse))
  unfolding job_response chronon_err
  get_job utc job_id = do found ← db.get_job utc job_id; pure (answer_job job_id (flatten_ok found))

  unfoldable pub pause_job : Instant → JobActionRequest V → Io S (Option (Answer (Unit {0})))
  unfolding respond
  pause_job utc req = do done ← db.pause_job utc req.job_id; pure (respond done)

  unfoldable pub resume_job : Instant → JobActionRequest V → Io S (Option (Answer (Unit {0})))
  unfolding respond
  resume_job utc req = do done ← db.resume_job utc req.job_id; pure (respond done)

  -- The caller's body may replace the parameters, never the actor.
  unfoldable pub run_now :
      (ℕ → Instant) → String → JobActionRequest V → Io S (Option (Answer String))
  unfolding run_now_with_params_and_actor respond
  run_now utc run_id req = do
    asked ← run_now_with_params_and_actor json db utc run_id req.job_id req.params none
    pure (respond asked)

  abbrev answer_runs : Result (List (Run V)) → Option (Answer (List RunResponse))
  answer_runs (ok runs) = accept (map (run_response rfc3339) runs)
  answer_runs (err e) = chronon_err e

  abbrev status_of : Option String → Option RunStatus
  status_of none = none
  status_of (some status) = parse_run_status lower status

  unfoldable pub list_runs : Instant → ListRunsQuery → Io S (Option (Answer (List RunResponse)))
  unfolding run_response chronon_err parse_run_status clamp_list_limit
  list_runs utc query = do
    runs ←
        db.list_runs_filtered utc query.job_id (status_of query.status) (get_or query.offset 0)
          (clamp_list_limit query.limit)
    pure (answer_runs runs)

  abbrev answer_run : String → Result (Option (Run V)) → Option (Answer RunResponse)
  answer_run run_id (ok (some run)) = accept (run_response rfc3339 run)
  answer_run run_id (ok none) = chronon_err (run_not_found run_id)
  answer_run run_id (err e) = chronon_err e

  unfoldable pub get_run : Instant → String → Io S (Option (Answer RunResponse))
  unfolding run_response chronon_err
  get_run utc run_id = do found ← db.get_run utc run_id; pure (answer_run run_id found)
