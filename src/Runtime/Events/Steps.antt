-- ===== src/Runtime/Events/Steps.antt =====
-- Which changes an event makes to the run rows (chronon-runtime/src/events.rs and retry.rs).
use chronon.Base.{
  ℕ, Option, none, some, true, String, ◌≡◌, refl, sym, subst, ◌⊎◌, inl, inr, Instant, arith, lookup,
  insert, Bool-cases,
}
use chronon.Model.Error.{ok}
use chronon.Model.Job.{Job}
use chronon.Model.Run.{Run, for_job, new_run, complete, fail}
use chronon.Model.Status.{RunStatus, queued, claimed, running, success, failed}
use chronon.Mem.State.{Store}
use chronon.Mem.Port.{mem_store}
use chronon.Mem.Jobs.{get_job}
use chronon.Mem.Runs.{update_run, create_run}
use chronon.Mem.Runs.Renew.{update_run-Updates}
use chronon.Sanitize.{safe_message}
use chronon.Runtime.Retry.{
  Failures, CapturedLogs, finalize_with, finalize_failed_run, after_failure_stored, failed_run,
  retry_run, with_failure_logs, should_retry, policy_of,
}
use chronon.Runtime.Events.{
  ExecutorEvent, run_started, run_completed, run_failed, is_startable, is_running, started_run,
  completed_run, orphan_run, fail_orphan, apply_logs, store_logged, fail_with_job, fail_running,
  apply_event,
}

-- The changes of status that an event makes.
pub data StatusStep : RunStatus → RunStatus → Type 0 where
  starts_queued : StatusStep queued running
  starts_claimed : StatusStep claimed running
  completes : StatusStep running success
  fails : StatusStep running failed

module _ {V : Type 0} where
  -- Each run is stored under its id.
  abbrev pub IsKeyed : Store V → Type 0
  IsKeyed s = (i : String) (run : Run V) → lookup i s.runs ≡ some run → run.run_id ≡ i

  abbrev pub put_run : Run V → Store V → Store V
  put_run run s = record s { runs = insert run.run_id run s.runs }

  -- Nothing changes; or one run takes a step of its status, and at most one new run is queued.
  abbrev pub Changes : Store V → String → Store V → Type 0
  Changes s next_id t =
      (t ≡ s)
      ⊎ ((old : Run V) × (run : Run V) × (lookup run.run_id s.runs ≡ some old)
          × StatusStep old.status run.status
          × ((t ≡ put_run run s)
              ⊎ ((next : Run V) × (next.run_id ≡ next_id)
                  × (next.status ≡ queued)
                  × (t ≡ put_run next (put_run run s)))))

module _ {V F : Type 0} (env : Failures V F) (utc : ℕ → Instant) (next_id : String) (s : Store V)
    (run : Run V) (stored : lookup run.run_id s.runs ≡ some run) where
  update_stored :
      (new : Run V) → new.run_id ≡ run.run_id → update_run new s ≡ (ok tt, put_run new s)
  update_stored new same = elim (update_run-Updates new s) [
    | inl (e, _) ↦ ground (arith, stored)
    | inr (_, _, o) ↦ o
  ]

  logged-Changes :
      (new : Run V)
      → new.run_id ≡ run.run_id
      → StatusStep run.status new.status
      → Changes s next_id (store_logged env (mem_store V) (utc 2) new s).1
  unfolding store_logged
  logged-Changes new same step = inr (
    run,
    new,
    ground (arith, stored),
    step,
    inl (subst (λ r. r.1 ≡ put_run new s) (sym (update_stored new same)) refl),
  )

  -- The retry that follows a stored failure.
  retried :
      (new : Run V) (job : Job V)
      → ((after_failure_stored env (mem_store V) utc next_id new job (ok tt) (put_run new s)).1
          ≡ put_run new s)
        ⊎ ((next : Run V) × (next.run_id ≡ next_id)
            × (next.status ≡ queued)
            × ((after_failure_stored env
                  (mem_store V)
                  utc
                  next_id
                  new
                  job
                  (ok tt)
                  (put_run new s)).1
                ≡ put_run next (put_run new s)))
  unfolding after_failure_stored retry_run for_job new_run create_run
  retried new job = elim (Bool-cases (should_retry (policy_of env job) new.attempt)) [
    | inl t ↦ inr (
      retry_run env next_id (utc 3) (policy_of env job) new,
      refl,
      refl,
      rw (t, after_failure_stored),
    )
    | inr f ↦ inl (rw (f, after_failure_stored))
  ]

  finalize-Changes :
      (job : Job V) (message : Option String) (logs : CapturedLogs)
      → run.status ≡ running
      → Changes s next_id
          (finalize_with env (mem_store V) utc next_id run job failed (some logs) message s).1
  unfolding finalize_with failed_run with_failure_logs fail
  finalize-Changes job none logs r = inl refl
  finalize-Changes job (some message) logs r =
      let new : Run V = failed_run env (utc 1) run failed message (some logs) in
      let step : StatusStep run.status failed = subst (λ x. StatusStep x failed) (sym r) fails in
      subst
        (λ o.
          Changes s next_id (after_failure_stored env (mem_store V) utc next_id new job o.0 o.1).1)
        (sym (update_stored new refl)) (inr (run, new, stored, step, retried new job))

  orphan-Changes :
      (message : Option String) (logs : CapturedLogs)
      → run.status ≡ running
      → Changes s next_id (fail_orphan env (mem_store V) utc run logs message s).1
  unfolding fail_orphan orphan_run apply_logs fail
  orphan-Changes none logs r = inl refl
  orphan-Changes (some message) logs r =
      logged-Changes (orphan_run env (utc 1) message logs run) refl
        (subst (λ x. StatusStep x failed) (sym r) fails)

  with_job-Changes :
      (job : Option (Job V)) (error : String) (logs : CapturedLogs)
      → run.status ≡ running
      → Changes s next_id (fail_with_job env (mem_store V) utc next_id run error logs job s).1
  unfolding fail_with_job finalize_failed_run
  with_job-Changes none error logs r = orphan-Changes (safe_message error) logs r
  with_job-Changes (some job) error logs r = finalize-Changes job (safe_message error) logs r

  running-Changes :
      (job_id : Option String) (error : String) (logs : CapturedLogs)
      → run.status ≡ running
      → Changes s next_id (fail_running env (mem_store V) utc next_id run error logs job_id s).1
  unfolding fail_running get_job
  running-Changes none error logs r = with_job-Changes none error logs r
  running-Changes (some job_id) error logs r = with_job-Changes (lookup job_id s.jobs) error logs r

  is_running_eq : (status : RunStatus) → is_running status ≡ true → status ≡ running
  is_running_eq running h = refl
  is_running_eq status h = ground (arith, h)

  starts : (status : RunStatus) → is_startable status ≡ true → StatusStep status running
  starts queued h = starts_queued
  starts claimed h = starts_claimed
  starts status h = absurd (ground (arith, h))

  pub event-Changes :
      (event : ExecutorEvent)
      → Changes s next_id (apply_event env (mem_store V) utc next_id event run s).1
  unfolding apply_event started_run completed_run complete apply_logs
  event-Changes (run_started id) = elim (Bool-cases (is_startable run.status)) [
    | inr f ↦ inl (rw (f, apply_event))
    | inl t ↦
        let goes_on : apply_event env (mem_store V) utc next_id (run_started id) run s
            ≡ store_logged env (mem_store V) (utc 2) (started_run env (utc 1) run) s =
          rw (t, apply_event) in
        subst (λ o. Changes s next_id o.1) (sym goes_on)
          (logged-Changes (started_run env (utc 1) run) refl (starts run.status t))
  ]
  event-Changes (run_completed id duration logs) = elim (Bool-cases (is_running run.status)) [
    | inr f ↦ inl (rw (f, apply_event))
    | inl t ↦
        let goes_on : apply_event env (mem_store V) utc next_id (run_completed id duration logs) run
              s
            ≡ store_logged env (mem_store V) (utc 2) (completed_run env (utc 1) duration logs run)
                s =
          rw (t, apply_event) in
        subst (λ o. Changes s next_id o.1) (sym goes_on)
          (logged-Changes (completed_run env (utc 1) duration logs run) refl
            (subst (λ x. StatusStep x success) (sym (is_running_eq run.status t)) completes))
  ]
  event-Changes (run_failed id error logs) = elim (Bool-cases (is_running run.status)) [
    | inr f ↦ inl (rw (f, apply_event))
    | inl t ↦
        let goes_on : apply_event env (mem_store V) utc next_id (run_failed id error logs) run s
            ≡ fail_running env (mem_store V) utc next_id run error logs run.job_id s =
          rw (t, apply_event) in
        subst (λ o. Changes s next_id o.1) (sym goes_on)
          (running-Changes run.job_id error logs (is_running_eq run.status t))
  ]
