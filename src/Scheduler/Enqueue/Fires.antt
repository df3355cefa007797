-- ===== src/Scheduler/Enqueue/Fires.antt =====
-- When the handler of a due job enqueues a run, over the in-memory store
-- (chronon-scheduler/src/tick_loop.rs).
use Prim.Native.String.{◌++◌ as append}
use chronon.Base.{
  ℕ, ◌+◌, ◌*◌, ◌<◌, Option, none, some, Bool, true, false, String, ◌≡◌, refl, sym, subst, ◌⊎◌, inl,
  inr, Instant, arith, lookup, insert, lookup-insert_self, ℤ, leb_ℤ, get_or, nanos_per_sec, ◌↔◌,
}
use chronon.Model.Error.{Result, ok}
use chronon.Model.Job.{Job, is_run_once}
use chronon.Model.Run.{Run, Json, for_job, new_run}
use chronon.Mem.State.{Store}
use chronon.Mem.Port.{mem_store}
use chronon.Mem.Jobs.{mutate_job_at, get_job}
use chronon.Mem.Runs.{create_run, list_runs_for_job}
use chronon.Mem.Claims.{persist_post_tick_job_state, claim_job_for_tick}
use chronon.Mem.Claims.Outcomes.{tick_claimed, claim_job_for_tick-ClaimsTick, IsTickable}
use chronon.Scheduler.Cron.{Croner}
use chronon.Scheduler.Partitioning.{job_execution_pool_id}
use chronon.Scheduler.Enqueue.{
  MisfirePolicy, next_fire, create_due_run, claim_due_run, enqueue_counted, enqueue_row,
  after_tick_claim, enqueue_due_job, run_of_job, count_active_runs, active_or_zero,
  should_enqueue_for_misfire, default_misfire, when, cron_next_run_at,
}

-- A run is enqueued exactly if gating is off (a window of 0 s), or the fire is not a full second
-- late, or it is late by no more than the window and the policy asks for late fires at once.
pub should_enqueue_iff :
    (scheduled_for now : Instant) (policy : MisfirePolicy)
    → (should_enqueue_for_misfire scheduled_for now policy ≡ true) ↔ (
        (policy.max_misfire_window_secs ≡ 0)
        ⊎ (now < scheduled_for + nanos_per_sec)
        ⊎ ((policy.run_immediately ≡ true)
            × (now < scheduled_for + (policy.max_misfire_window_secs + 1) * nanos_per_sec)))
unfolding should_enqueue_for_misfire
should_enqueue_iff scheduled_for now policy = ground arith

module _ {V C Tz : Type 0} (json : Json V) (misfire_policy : V → Option MisfirePolicy)
    (croner : Croner C Tz) (utc : ℕ → Instant) (claim_uuid run_id : String) (lease_ttl : ℕ)
    (instance_id id : String) (s : Store V) (job : Job V) where
  -- The handler's result.
  abbrev pub handled : Result Bool × Store V
  handled =
      enqueue_due_job json misfire_policy (mem_store V) croner utc claim_uuid run_id lease_ttl
        instance_id id s

  -- The row after the job has fired.
  abbrev pub fired : Job V
  fired = record job {
    next_run_at = next_fire croner job (utc 0);
    claim_lease_id = none;
    claim_lease_until = none;
    updated_at = utc 8;
  }

  abbrev pub run : Run V
  run = run_of_job json run_id job (get_or job.next_run_at (utc 0))

  -- The number of runs of the job that the handler counts.
  abbrev pub active : ℤ
  active = active_or_zero (count_active_runs (mem_store V) (utc 3) id s).0

  -- The run was added and the row is the fired one.
  abbrev pub Fires : Result Bool × Store V → Type 0
  Fires out =
      (out.0 ≡ ok true)
      × (out.1.runs ≡ insert run.run_id run s.runs)
      × (lookup id out.1.jobs ≡ some fired)

  abbrev claimed : Job V
  claimed = tick_claimed id (append instance_id (append ":" claim_uuid)) (utc 0) lease_ttl s job

  abbrev s' : Store V
  s' = record s { jobs = insert id claimed s.jobs }

  persist-Fires : Fires (
    ok true,
    (persist_post_tick_job_state
        (utc 8)
        id
        (next_fire croner job (utc 0))
        (record s' { runs = insert run.run_id run s.runs })).1,
  )
  unfolding persist_post_tick_job_state mutate_job_at
  persist-Fires =
      rw (lookup-insert_self id claimed s.jobs, persist_post_tick_job_state, mutate_job_at)
        (refl, refl, lookup-insert_self id _ (insert id claimed s.jobs))

  create-Fires :
      is_run_once job.schedule_kind ≡ false
      → Fires (
          create_due_run json misfire_policy
            (mem_store V)
            croner
            utc
            run_id
            instance_id
            id
            claimed
            (utc 0)
            (get_or job.next_run_at (utc 0))
            s')
  unfolding create_due_run create_run run_of_job for_job new_run job_execution_pool_id next_fire
      cron_next_run_at
  create-Fires other = rw (other, create_due_run, when) persist-Fires

  -- The handler holds the tick claim, reads the row and counts the runs.
  claimed_ok :
      lookup id s.jobs ≡ some job
      → IsTickable id (append instance_id (append ":" claim_uuid)) (utc 0) lease_ttl s job
      → claim_job_for_tick id (append instance_id (append ":" claim_uuid)) (utc 0) lease_ttl s
        ≡ (ok true, s')
  claimed_ok e free =
      let claim_id = append instance_id (append ":" claim_uuid) in
      elim (claim_job_for_tick-ClaimsTick id claim_id (utc 0) lease_ttl s) [
        | inl (busy, _) ↦ absurd (busy (job, e, free))
        | inr (row, at, _, o) ↦
            let same : row ≡ job = ground arith in
            subst
              (λ r. claim_job_for_tick id claim_id (utc 0) lease_ttl s ≡ (
                ok true,
                record s {
                  jobs = insert id (tick_claimed id claim_id (utc 0) lease_ttl s r) s.jobs;
                },
              ))
              same o
      ]

  counted-Fires :
      is_run_once job.schedule_kind ≡ false
      → leb_ℤ job.concurrency active ≡ false
      → should_enqueue_for_misfire
          (get_or job.next_run_at (utc 0))
          (utc 0)
          (get_or (misfire_policy job.misfire_policy_json) default_misfire)
        ≡ true
      → Fires (
          enqueue_counted json misfire_policy
            (mem_store V)
            croner
            utc
            run_id
            lease_ttl
            instance_id
            id
            (utc 0)
            claimed
            active
            s')
  unfolding enqueue_counted claim_due_run
  counted-Fires other room fire =
      rw (room, enqueue_counted) (rw fire (rw (other, claim_due_run) (create-Fires other)))

  -- An enabled job under no live tick claim that is no run-once job, has fewer active runs than its
  -- limit and passes the misfire policy is enqueued: the handler answers true, one run is added for
  -- the time that the job was due, the next fire is stored and the tick claim is given up.
  pub fires :
      lookup id s.jobs ≡ some job
      → IsTickable id (append instance_id (append ":" claim_uuid)) (utc 0) lease_ttl s job
      → is_run_once job.schedule_kind ≡ false
      → leb_ℤ job.concurrency active ≡ false
      → should_enqueue_for_misfire
          (get_or job.next_run_at (utc 0))
          (utc 0)
          (get_or (misfire_policy job.misfire_policy_json) default_misfire)
        ≡ true
      → Fires handled
  unfolding enqueue_due_job after_tick_claim get_job enqueue_row count_active_runs list_runs_for_job
  fires e free other room fire =
      subst
        (λ r. Fires (
          after_tick_claim json misfire_policy (mem_store V) croner utc run_id lease_ttl instance_id
            id r.0 r.1))
        (sym (claimed_ok e free))
        (subst
          (λ row. Fires (
            enqueue_row json misfire_policy (mem_store V) croner utc run_id lease_ttl instance_id id
              (utc 0) row s'))
          (sym (lookup-insert_self id claimed s.jobs)) (counted-Fires other room fire))
