-- ===== src/Http/Upsert.antt =====
-- chronon-axum/src/handlers.rs: `POST /jobs/upsert`.
use Prim.Native.Char.{code}
use Prim.Native.String.{◌++◌ as append, len}
use chronon.Base.{
  ℕ, ◌+◌, Option, none, some, Bool, true, false, ◌&&◌, ◌||◌, String, ℤ, pos, negsuc, ◌+ℤ◌, Instant,
  leb, eqb, is_empty_text, trim, if◌then◌else◌,
}
use chronon.Model.Error.{Result, ok, err, Io, ◌>>=◌, pure, flatten_ok}
use chronon.Model.Job.{Job, ScheduleKind, is_cron}
use chronon.Model.Run.{Json}
use chronon.Port.{SchedulerStore}
use chronon.Http.Request.{
  UpsertJobRequest, JobResponse, job_response, kind_of_dto, external, validate,
}
use chronon.Http.Response.{
  Answer, StatusCode, bad_request, chronon_status, chronon_err, accept, refuse, to_string,
}
use chronon.Runtime.Retry.{Float, RetryPolicy, default_retry_policy}
use chronon.Runtime.Retry.Clamp.{clamp_security_bounds}
use chronon.Runtime.Service
use chronon.Scheduler.Cron.{Croner, CronExpr, parse, next_after}

abbrev max_pool_chars : ℕ
max_pool_chars = 128

-- `[A-Za-z0-9._/-]`
abbrev pub is_pool_char : ℕ → Bool
is_pool_char c =
    (leb b'0' c && leb c b'9')
    || (leb b'A' c && leb c b'Z')
    || (leb b'a' c && leb c b'z')
    || eqb c b'.'
    || eqb c b'_'
    || eqb c b'/'
    || eqb c b'-'

abbrev pub all_chars : (ℕ → Bool) → String → Bool
all_chars test String.[] = true
all_chars test (String.◌∷◌ c s) = test (code c) && all_chars test s

-- A field of the request is taken, or the answer to its refusal.
pub data Checked (A : Type 0) : Type 0 where
  fine : A → Checked A
  refused : String → Checked A

-- The handler goes on, or answers at once.
pub data Outcome (A : Type 0) : Type 0 where
  go : A → Outcome A
  stop : StatusCode → String → Outcome A

abbrev pub then_go : {A B : Type 0} → Outcome A → (A → Outcome B) → Outcome B
then_go (go a) f = f a
then_go (stop status message) f = stop status message

-- `len` counts bytes, as `str::len` does.
unfoldable pub normalize_pool : String → Checked (Option String)
normalize_pool raw =
    let pool = trim raw in
    if is_empty_text pool
    then fine none
    else if leb (len pool) max_pool_chars && all_chars is_pool_char pool
    then fine (some pool)
    else refused "Invalid pool: use at most 128 characters from [A-Za-z0-9._/-]"

-- `i32::saturating_add(1)`
unfoldable pub bump_revision : ℤ → ℤ
bump_revision (pos n) = if leb 2_147_483_647 n then pos 2_147_483_647 else pos n +ℤ pos 1
bump_revision (negsuc n) = negsuc n +ℤ pos 1

-- What the handler is given besides the request: `is_null` and `has_key` of JSON values, `serde_json`
-- on policies, and the clock and the identifier for a new job.
pub record Values (V F : Type 0) : Type 0 where
  pub json : Json V
  pub is_null : V → Bool
  pub has_key : String → V → Bool
  pub float : Float F
  pub decode : V → Option (RetryPolicy F)
  pub encode : RetryPolicy F → V
  pub misfire_default : V

module _ {V F : Type 0} (env : Values V F) where
  -- `Job::new`
  unfoldable pub new_job : String → Instant → String → String → Job V
  new_job job_id now job_name script_name = record {
    job_id = job_id;
    job_name = job_name;
    script_name = script_name;
    script_sig_hash = "";
    enabled = true;
    schedule_kind = ScheduleKind.cron;
    cron_expr = none;
    timezone = none;
    run_once_at = none;
    run_once_claimed_at = none;
    run_once_claimed_by = none;
    run_once_completed_at = none;
    run_once_claim_expires_at = none;
    partition_hash = none;
    claim_lease_id = none;
    claim_lease_until = none;
    pool = none;
    region = none;
    placement_json = none;
    actor_json = env.json.null;
    params_json = env.json.empty_object;
    concurrency = pos 1;
    timeout_ms = none;
    retry_policy_json = env.encode (default_retry_policy env.float);
    misfire_policy_json = env.misfire_default;
    parent_limits_json = none;
    next_run_at = none;
    current_revision = pos 1;
    updated_at = now;
    created_at = now;
  }

  unfoldable pub base_job : String → Instant → UpsertJobRequest V → Option (Job V) → Job V
  unfolding new_job bump_revision
  base_job job_id now req none = new_job job_id now req.job_name req.script_name
  base_job job_id now req (some existing) = record existing {
    script_name = req.script_name;
    current_revision = bump_revision existing.current_revision;
  }

  unfoldable pub with_fields : UpsertJobRequest V → Job V → Job V
  unfolding kind_of_dto
  with_fields req job = record job {
    enabled = req.enabled;
    schedule_kind = kind_of_dto req.schedule_kind;
    cron_expr = req.cron_expr;
    timezone = req.timezone;
    params_json = req.params;
    concurrency = req.concurrency;
    timeout_ms = req.timeout_ms;
  }

  abbrev pub accept_actor : V → Job V → Result (Unit {0}) → Outcome (Job V)
  accept_actor actor job (ok _) = go (record job { actor_json = actor })
  accept_actor actor job (err e) = stop (chronon_status e) (to_string e)

  -- A given actor that is not null replaces the stored one, if the policy lets it.
  unfoldable pub with_actor : Option V → Job V → Outcome (Job V)
  unfolding chronon_status to_string
  with_actor none job = go job
  with_actor (some actor) job =
      if env.is_null actor
      then go job
      else accept_actor actor job (validate env.has_key external actor)

  abbrev pub over : Option V → V → V
  over none old = old
  over (some new) old = if env.is_null new then old else new

  unfoldable pub with_policies : UpsertJobRequest V → Job V → Job V
  with_policies req job = record job {
    retry_policy_json = over req.retry_policy job.retry_policy_json;
    misfire_policy_json = over req.misfire_policy job.misfire_policy_json;
  }

  abbrev pub set_pool : Job V → Checked (Option String) → Outcome (Job V)
  set_pool job (fine pool) = go (record job { pool = pool })
  set_pool job (refused message) = stop bad_request message

  unfoldable pub with_pool : Option String → Job V → Outcome (Job V)
  unfolding normalize_pool
  with_pool none job = go job
  with_pool (some pool) job = set_pool job (normalize_pool pool)

  module _ {C Tz : Type 0} (croner : Croner C Tz) where
    abbrev pub set_next : Instant → Job V → Result (CronExpr C Tz) → Outcome (Job V)
    set_next now job (ok c) = go (record job { next_run_at = next_after croner c now })
    set_next now job (err e) = stop bad_request (append "Invalid cron expression: " (to_string e))

    unfoldable pub with_cron : Instant → Job V → Outcome (Job V)
    unfolding to_string
    with_cron now job = elim (is_cron job.schedule_kind) [
      | false ↦ go job
      | true ↦ elim job.cron_expr [
        | none ↦ go job
        | some cron_expr ↦ set_next now job (parse croner cron_expr job.timezone)
      ]
    ]

    -- The job that a request asks for, from the row that has its name; `now` is read for the next fire.
    unfoldable pub job_of_request : Instant → UpsertJobRequest V → Job V → Outcome (Job V)
    job_of_request now req base = then_go (with_actor req.actor_json (with_fields req base)) λ job.
        then_go (with_pool req.pool (with_policies req job))
          λ pooled. with_cron now (clamp_security_bounds env.float env.decode env.encode pooled)

abbrev pub unknown_script : String → String
unknown_script script_name = append "Script '" (append script_name "' not found")

-- `contains` is `ScriptRegistry::contains`; `utc k` is the k-th reading of the clock in a request.
module _ {V F S C Tz : Type 0} (env : Values V F) (db : SchedulerStore V S) (croner : Croner C Tz)
    (partition_hash : String → ℤ) (to_value : Job V → Result V) (contains : String → Bool)
    (rfc3339 : Instant → String) where
  abbrev stored_answer : Job V → Result (Unit {0}) → Option (Answer JobResponse)
  stored_answer job (ok _) = accept (job_response rfc3339 job)
  stored_answer job (err e) = chronon_err e

  unfoldable pub finish_upsert :
      (ℕ → Instant) → String → Outcome (Job V) → Io S (Option (Answer JobResponse))
  unfolding job_response chronon_err refuse
  finish_upsert utc revision_id (stop status message) = pure (refuse status message)
  finish_upsert utc revision_id (go job) = do
    stored ← Service.upsert_job db croner partition_hash to_value (λ k. utc (3 + k)) revision_id job
    pure (stored_answer job stored)

  unfoldable pub post_upsert :
      (ℕ → Instant) → String → String → UpsertJobRequest V → Io S (Option (Answer JobResponse))
  unfolding finish_upsert job_of_request base_job refuse
  post_upsert utc job_id revision_id req = elim (contains req.script_name) [
    | false ↦ pure (refuse bad_request (unknown_script req.script_name))
    | true ↦ do
      found ← db.get_job_by_name (utc 0) req.job_name
      finish_upsert utc revision_id (
          job_of_request env croner (utc 2) req
            (base_job env job_id (utc 1) req (flatten_ok found)))
  ]
