-- ===== src/Examples/HttpRuns.antt =====
-- The HTTP API on concrete requests.
use chronon.Base.{
  ℕ, Option, none, some, Bool, true, false, ◌||◌, List, [], ◌∷◌, String, pos, ◌≡◌, ◌≤◌, refl, ◌==◌,
  map, All, length, take, drop, filter, min, text_discrete,
}
use chronon.Model.Error.{ok}
use chronon.Model.Job.{Job}
use chronon.Mem.State.{Store, new}
use chronon.Mem.Port.{mem_store}
use chronon.Runtime.Retry.{Float, RetryPolicy}
use chronon.Scheduler.Cron.{Croner}
use chronon.Http.Auth.{AdminState, static_token, require_admin}
use chronon.Http.Request.{UpsertJobRequest, JobResponse, ScheduleKindDto}
use chronon.Http.Response.{Answer, status_ok}
use chronon.Http.Upsert.{Values, base_job, new_job, job_of_request, post_upsert, unknown_script}
use chronon.Http.Outcomes.{Settles}
use chronon.Http.External.{IsAccepted, IsNeverDue, job_of_request-IsAccepted, run_once-IsNeverDue}
use chronon.Http.Refusals.{IsRefusal, post_upsert-refuses}
use chronon.Sanitize.{safe_message}
use chronon.Http.Revisions.{Objects, RevisionResponse, get_job_revisions}
use chronon.Http.Redacted.{IsObjects, IsRedacted, shown, get_job_revisions-IsRedacted}
use chronon.Http.Paging.{listed_jobs-Windows}
use chronon.Http.Jobs.{
  ListJobsQuery, listed_jobs, matches_query, clamp_list_limit, page, max_list_limit,
}
use chronon.Examples.{at, still, nightly, launch}

-- JSON values: null, a retry policy, and objects, entry by entry.
data Value : Type 0 where
  null empty : Value
  policy : RetryPolicy ℕ → Value
  entry : String → Value → Value → Value

abbrev keyed : String → Value
keyed key = entry key null empty

abbrev is_null : Value → Bool
is_null null = true
is_null _ = false

abbrev joined : String → Value → Option (List (String × Value)) → Option (List (String × Value))
joined key v none = none
joined key v (some members) = some ((key, v) ∷ members)

abbrev as_object : Value → Option (List (String × Value))
as_object empty = some []
as_object (entry key v rest) = joined key v (as_object rest)
as_object _ = none

abbrev object : List (String × Value) → Value
object [] = empty
object ((key, v) ∷ members) = entry key v (object members)

as_object-object : (members : List (String × Value)) → as_object (object members) ≡ some members
as_object-object [] = refl
as_object-object ((key, v) ∷ members) = rw (as_object-object members) refl

abbrev has_key : String → Value → Bool
has_key key (entry k v rest) = key == k || has_key key rest
has_key key _ = false

abbrev decode : Value → Option (RetryPolicy ℕ)
decode (policy p) = some p
decode _ = none

-- Whole numbers as floats.
abbrev whole : Float ℕ
whole = record {
  of_u64 = λ n. n;
  times = λ a b. a;
  powi = λ a n. a;
  is_finite = λ a. true;
  is_positive = λ a. true;
  is_below_one = λ a. false;
  to_u64 = λ a. a;
}

abbrev values_of : Values Value ℕ
values_of = record {
  json = record { null = null; empty_object = keyed ""; message = keyed };
  is_null = is_null;
  has_key = has_key;
  float = whole;
  decode = decode;
  encode = policy;
  misfire_default = keyed "";
}

abbrev every_time : Croner ℕ ℕ
every_time = record {
  parse_schedule = λ e. some 0;
  message = λ e. e;
  parse_timezone = λ z. some 0;
  utc = 0;
  find_next_occurrence = λ c z t. some t;
}

-- A run-once request with more concurrency than a job may have.
abbrev once : UpsertJobRequest Value
once = record {
  job_name = "launch";
  script_name = "backup";
  cron_expr = none;
  timezone = none;
  schedule_kind = ScheduleKindDto.run_once;
  params = keyed "";
  enabled = true;
  concurrency = pos 5000;
  timeout_ms = none;
  actor_json = some (keyed "User");
  retry_policy = none;
  misfire_policy = none;
  pool = some " gpu/a ";
}

abbrev fresh : Job Value
fresh = new_job values_of "job-9" (at 1) "launch" "backup"

job_of_request-IsAccepted_example :
    Settles values_of every_time
      (IsAccepted values_of every_time fresh)
      (job_of_request values_of every_time (at 2) once fresh)
job_of_request-IsAccepted_example =
    job_of_request-IsAccepted values_of every_time (at 2) once fresh refl (λ p f. refl)

run_once-IsNeverDue_example :
    Settles values_of every_time
      (IsNeverDue values_of every_time
        (mem_store Value)
        (λ id. pos 3)
        (λ j. ok (keyed j.job_id))
        (still 2)
        (at 9)
        (3 ∷ [])
        (at 9))
      (job_of_request values_of every_time
        (at 2)
        once
        (base_job values_of "job-9" (at 1) once none))
run_once-IsNeverDue_example =
    run_once-IsNeverDue values_of every_time (mem_store Value) (λ id. pos 3)
      (λ j. ok (keyed j.job_id)) (still 2) (at 9) (3 ∷ []) (at 9) (at 1) (at 2) "job-9" once refl

abbrev forged : UpsertJobRequest Value
forged = record once { actor_json = some (keyed "System") }

abbrev answered : UpsertJobRequest Value → Option (Answer JobResponse) × Store Value
answered req =
    post_upsert values_of (mem_store Value) every_time (λ id. pos 3) (λ j. ok (keyed j.job_id))
      (λ script. true) (λ t. "") (still 1) "job-9" "rev-1" req (new Value)

post_upsert-refuses_example :
    IsRefusal values_of every_time
      (λ id. pos 3)
      (λ j. ok (keyed j.job_id))
      (λ script. true)
      (λ t. "")
      "backup"
      (answered forged).0
    × ((answered forged).1 ≡ new Value)
unfolding text_discrete
post_upsert-refuses_example =
    post_upsert-refuses values_of every_time (λ id. pos 3) (λ j. ok (keyed j.job_id))
      (λ script. true) (λ t. "") (still 1) "job-9" "rev-1" forged (new Value) (keyed "System") refl
      refl refl

-- A script that is not known, with a name whose message panics: no answer.
unanswered : safe_message (unknown_script "“a://b") ≡ none
unfolding safe_message
unanswered = refl

abbrev objects_of : Objects Value
objects_of = record { null = null; as_object = as_object; object = object }

objects_of-IsObjects : IsObjects objects_of
objects_of-IsObjects members seen name e = cc (e, as_object-object members)

abbrev revisions_once : Option (Answer (List (RevisionResponse Value))) × Store Value
revisions_once =
    get_job_revisions objects_of (mem_store Value) (λ t. "") (at 3) "job-9" (answered once).1

get_job_revisions-IsRedacted_example :
    All (IsRedacted objects_of) (shown objects_of (mem_store Value) (λ t. "") revisions_once.0)
get_job_revisions-IsRedacted_example =
    get_job_revisions-IsRedacted objects_of (mem_store Value) (λ t. "") (at 3) "job-9"
      (answered once).1 objects_of-IsObjects

-- A request is the text of its header, if it has one.
abbrev locked : AdminState (Option String)
locked = record {
  admin_auth = some (static_token (λ parts. parts) "open sesame");
  require_admin_auth = true;
}

abbrev count_up : ℕ → Option (Answer ℕ) × ℕ
count_up n = (some (status_ok, record { success = true; data_field = some n; error = none }), 7)

abbrev second : ListJobsQuery
second = record {
  job_name = none;
  script_name = some "backup";
  enabled = none;
  schedule_kind = none;
  offset = some 1;
  limit = some 5000;
}

abbrev both : List (Job String)
both = nightly ∷ launch ∷ []

listed_jobs-Windows_example :
    (listed_jobs second both
      ≡ take (clamp_list_limit (some 5000)) (drop 1 (filter (matches_query second) both)))
    × (length (listed_jobs second both) ≤ min 5000 max_list_limit)
    × All (λ job. matches_query second job ≡ true) (listed_jobs second both)
listed_jobs-Windows_example = listed_jobs-Windows second both

-- The second page holds the second job.
listed_second : map (λ (j : Job String). j.job_id) (listed_jobs second both) ≡ "job-2" ∷ []
unfolding listed_jobs page matches_query clamp_list_limit text_discrete
listed_second = refl

-- The wrong token.
refused_guess :
    require_admin locked (some "guess") ≡ some "missing or invalid x-chronon-admin-token"
unfolding require_admin static_token text_discrete
refused_guess = refl
