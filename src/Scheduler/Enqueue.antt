-- ===== src/Scheduler/Enqueue.antt =====
-- chronon-scheduler/src/tick_loop.rs: one due job is claimed and becomes a run. `utc k` is the k-th
-- reading of the clock; logging and telemetry are left out.
pub mod Rows
pub mod Effects
pub mod Fires
pub mod Stale
use Prim.Native.String.{◌++◌ as append}
use chronon.Base.{
  ℕ, Option, none, some, Bool, true, false, not, ◌||◌, List, String, ℤ, pos, leb_ℤ, Instant,
  seconds_late, filter, length, leb, eqb, ◌&&◌, get_or, if◌then◌else◌,
}
use chronon.Model.Error.{Result, ok, err, Io, ◌>>=◌, ◌>>◌, pure, try_ok}
use chronon.Model.Job.{Job, is_run_once, is_cron}
use chronon.Model.Run.{Run, Json, for_job}
use chronon.Model.Status.{is_active}
use chronon.Port.{SchedulerStore}
use chronon.Scheduler.Cron.{Croner, parse, next_after}
use chronon.Scheduler.Partitioning.{job_execution_pool_id}

pub record MisfirePolicy : Type 0 where
  pub run_immediately : Bool
  pub max_misfire_window_secs : ℕ

abbrev pub default_misfire : MisfirePolicy
default_misfire = record { run_immediately = false; max_misfire_window_secs = 0 }

unfoldable pub should_enqueue_for_misfire : Instant → Instant → MisfirePolicy → Bool
should_enqueue_for_misfire scheduled_for now policy =
    let lateness_secs = seconds_late now scheduled_for in
    if eqb policy.max_misfire_window_secs 0
    then true
    else if eqb lateness_secs 0
    then true
    else leb lateness_secs policy.max_misfire_window_secs && policy.run_immediately

abbrev pub is_ok_true : Result Bool → Bool
is_ok_true (ok b) = b
is_ok_true (err e) = false

-- `.unwrap_or(0)`
abbrev pub active_or_zero : Result ℤ → ℤ
active_or_zero (ok n) = n
active_or_zero (err e) = pos 0

-- A call whose failure is only logged.
abbrev pub when : {S A : Type 0} → Bool → Io S A → Io S (Unit {0})
when true m s = (tt, (m s).1)
when false m s = (tt, s)

module _ {V S : Type 0} (db : SchedulerStore V S) where
  unfoldable pub count_active_runs : Instant → String → Io S (Result ℤ)
  count_active_runs utc job_id = do
    runs ← db.list_runs_for_job utc job_id 10_000
    try_ok runs λ rs. pure (ok (pos (length (filter (λ (r : Run V). is_active r.status) rs))))

  unfoldable pub release_and_stop : Instant → String → Io S (Result Bool)
  release_and_stop utc job_id = do released ← db.release_job_tick_claim utc job_id; pure (ok false)

module _ {V C Tz : Type 0} (croner : Croner C Tz) where
  unfoldable pub cron_next_run_at : Job V → Instant → Option Instant
  cron_next_run_at job after = elim job.cron_expr [
    | none ↦ none
    | some expr ↦ elim (parse croner expr job.timezone) [
      | err e ↦ none
      | ok c ↦ next_after croner c after
    ]
  ]

  -- The time that a handled job is due next.
  unfoldable pub next_fire : Job V → Instant → Option Instant
  next_fire job now = if is_cron job.schedule_kind then cron_next_run_at job now else none

module _ {V S C Tz : Type 0} (db : SchedulerStore V S) (croner : Croner C Tz) where
  unfoldable pub skip_due_job : (ℕ → Instant) → Job V → String → Instant → Io S (Result Bool)
  skip_due_job utc job job_id now = do
    when (is_run_once job.schedule_kind) (db.mark_run_once_completed (utc 4) job_id now)
    persisted ← db.persist_post_tick_job_state (utc 5) job_id (next_fire croner job now)
    released ← db.release_job_tick_claim (utc 6) job_id
    pure (ok false)

module _ {V : Type 0} (json : Json V) where
  -- The run takes the job's identity and parameters as they are now.
  unfoldable pub run_of_job : String → Job V → Instant → Run V
  run_of_job run_id job scheduled_for =
      record (for_job json run_id job.job_id job.script_name scheduled_for) {
        actor_json = job.actor_json;
        params_json = job.params_json;
        pool_id = some (job_execution_pool_id job);
      }

module _ {V S C Tz : Type 0} (json : Json V) (misfire_policy : V → Option MisfirePolicy)
    (db : SchedulerStore V S) (croner : Croner C Tz) where
  unfoldable pub create_due_run :
      (ℕ → Instant) → String → String → String → Job V → Instant → Instant → Io S (Result Bool)
  create_due_run utc run_id instance_id job_id job now scheduled_for = do
    created ← db.create_run (utc 5) (run_of_job json run_id job scheduled_for)
    elim created [
      | err e ↦ do
        when (is_run_once job.schedule_kind)
            (db.release_run_once_claim (utc 6) job_id instance_id (utc 7))
        release_and_stop db (utc 8) job_id
      | ok _ ↦ do
        when (is_run_once job.schedule_kind) (db.mark_run_once_completed (utc 6) job_id (utc 7))
        persisted ← db.persist_post_tick_job_state (utc 8) job_id (next_fire croner job now)
        pure (ok true)
    ]

  -- The run is made only under a run-once claim that was granted.
  unfoldable pub after_once_claim :
      (ℕ → Instant)
      → String
      → String
      → String
      → Job V
      → Instant
      → Instant
      → Result Bool
      → Io S (Result Bool)
  after_once_claim utc run_id instance_id job_id job now scheduled_for claimed =
      elim (is_ok_true claimed) [
        | true ↦ create_due_run utc run_id instance_id job_id job now scheduled_for
        | false ↦ release_and_stop db (utc 5) job_id
      ]

  unfoldable pub claim_due_run :
      (ℕ → Instant) → String → ℕ → String → String → Job V → Instant → Instant → Io S (Result Bool)
  claim_due_run utc run_id lease_ttl instance_id job_id job now scheduled_for =
      elim (is_run_once job.schedule_kind) [
        | false ↦ create_due_run utc run_id instance_id job_id job now scheduled_for
        | true ↦ do
          claimed ← db.try_claim_run_once (utc 4) job_id instance_id now lease_ttl
          after_once_claim utc run_id instance_id job_id job now scheduled_for claimed
      ]

  -- The concurrency limit and the misfire policy.
  unfoldable pub enqueue_counted :
      (ℕ → Instant) → String → ℕ → String → String → Instant → Job V → ℤ → Io S (Result Bool)
  enqueue_counted utc run_id lease_ttl instance_id job_id now job active_count =
      elim (leb_ℤ job.concurrency active_count) [
        | true ↦ release_and_stop db (utc 4) job_id
        | false ↦
            elim (should_enqueue_for_misfire (get_or job.next_run_at now) now
              (get_or (misfire_policy job.misfire_policy_json) default_misfire)) [
                | false ↦ skip_due_job db croner utc job job_id now
                | true ↦
                    claim_due_run utc run_id lease_ttl instance_id job_id job now
                      (get_or job.next_run_at now)
              ]
      ]

  unfoldable pub enqueue_row :
      (ℕ → Instant) → String → ℕ → String → String → Instant → Option (Job V) → Io S (Result Bool)
  enqueue_row utc run_id lease_ttl instance_id job_id now none = release_and_stop db (utc 3) job_id
  enqueue_row utc run_id lease_ttl instance_id job_id now (some job) = do
    active ← count_active_runs db (utc 3) job_id
    enqueue_counted utc run_id lease_ttl instance_id job_id now job (active_or_zero active)

  -- The handler: `Ok(true)` from the tick claim, then the row, then the checks above.
  unfoldable pub after_tick_claim :
      (ℕ → Instant) → String → ℕ → String → String → Result Bool → Io S (Result Bool)
  after_tick_claim utc run_id lease_ttl instance_id job_id claimed = elim (is_ok_true claimed) [
    | false ↦ pure (ok false)
    | true ↦ do
      found ← db.get_job (utc 2) job_id
      try_ok found λ row. enqueue_row utc run_id lease_ttl instance_id job_id (utc 0) row
  ]

  -- `claim_uuid` and `run_id` are the fresh UUIDs of the call.
  unfoldable pub enqueue_due_job :
      (ℕ → Instant) → String → String → ℕ → String → String → Io S (Result Bool)
  enqueue_due_job utc claim_uuid run_id lease_ttl instance_id job_id = do
    claimed ←
        db.claim_job_for_tick (utc 1) job_id (append instance_id (append ":" claim_uuid)) (utc 0)
          lease_ttl
    after_tick_claim utc run_id lease_ttl instance_id job_id claimed
