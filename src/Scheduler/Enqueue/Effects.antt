-- ===== src/Scheduler/Enqueue/Effects.antt =====
-- What the handler of one due job leaves in the in-memory store
-- (chronon-scheduler/src/tick_loop.rs).
use Prim.Native.String.{◌++◌ as append}
use chronon.Base.{
  ℕ, Option, some, Bool, false, String, ◌≡◌, refl, sym, subst, ◌⊎◌, inl, inr, Instant, lookup,
  insert, lookup-insert_self, Bool-cases, ℤ, leb_ℤ, get_or,
}
use chronon.Model.Error.{Result, ok}
use chronon.Model.Job.{Job, is_run_once}
use chronon.Model.Run.{Run, Json, for_job, new_run}
use chronon.Mem.State.{Store}
use chronon.Mem.Port.{mem_store}
use chronon.Mem.Jobs.{get_job}
use chronon.Mem.Runs.{create_run, list_runs_for_job}
use chronon.Mem.Claims.{mark_run_once_completed, persist_post_tick_job_state}
use chronon.Mem.Claims.Outcomes.{
  once_claimed, tick_claimed, try_claim_run_once-ClaimsOnce, claim_job_for_tick-ClaimsTick,
}
use chronon.Scheduler.Cron.{Croner}
use chronon.Scheduler.Partitioning.{job_execution_pool_id}
use chronon.Scheduler.Enqueue.{
  MisfirePolicy, next_fire, release_and_stop, skip_due_job, create_due_run, claim_due_run,
  after_once_claim, enqueue_counted, enqueue_row, after_tick_claim, enqueue_due_job, run_of_job,
  count_active_runs, should_enqueue_for_misfire, default_misfire, when,
}
use chronon.Scheduler.Enqueue.Rows.{
  Stored, insert-Stored, release-Released, persist-Released, Stored-of_Released, when_mark-Stored,
  Handled,
}

module _ {V C Tz : Type 0} (json : Json V) (misfire_policy : V → Option MisfirePolicy)
    (croner : Croner C Tz) (utc : ℕ → Instant) (run_id : String) (lease_ttl : ℕ)
    (instance_id id : String) where
  stop-Handled :
      (s : Store V) (run : Run V) (now : Instant)
      → Stored id s.runs s
      → Handled id s.runs run (release_and_stop (mem_store V) now id s)
  unfolding release_and_stop
  stop-Handled s run now h = inl (refl, release-Released id s.runs s now h)

  skip-Handled :
      (s : Store V) (run : Run V) (job : Job V) (now : Instant)
      → Stored id s.runs s
      → Handled id s.runs run (skip_due_job (mem_store V) croner utc job id now s)
  unfolding skip_due_job
  skip-Handled s run job now h =
      let marked : Store V =
        (when (is_run_once job.schedule_kind) (mark_run_once_completed (utc 4) id now) s).1 in
      let persisted : Store V =
        (persist_post_tick_job_state (utc 5) id (next_fire croner job now) marked).1 in
      inl (
        refl,
        release-Released id s.runs persisted (utc 6) (
            Stored-of_Released id s.runs persisted (
              persist-Released id s.runs marked (utc 5) (next_fire croner job now)
                (when_mark-Stored id s.runs s (is_run_once job.schedule_kind) (utc 4) now h))),
      )

  create-Handled :
      (s : Store V) (job : Job V) (now scheduled_for : Instant)
      → Stored id s.runs s
      → Handled id s.runs (run_of_job json run_id job scheduled_for) (
          create_due_run json misfire_policy
            (mem_store V)
            croner
            utc
            run_id
            instance_id
            id
            job
            now
            scheduled_for
            s)
  unfolding create_due_run create_run
  create-Handled s job now scheduled_for (row, e, r) =
      let run = run_of_job json run_id job scheduled_for in
      let after : Store V = record s { runs = insert run.run_id run s.runs } in
      inr (
        refl,
        persist-Released id after.runs
            (when (is_run_once job.schedule_kind) (mark_run_once_completed (utc 6) id (utc 7))
              after).1
            (utc 8) (next_fire croner job now)
            (when_mark-Stored id after.runs after (is_run_once job.schedule_kind) (utc 6) (utc 7)
              (row, e, refl)),
      )

  claim_run-Handled :
      (s : Store V) (job : Job V) (now scheduled_for : Instant)
      → Stored id s.runs s
      → Handled id s.runs (run_of_job json run_id job scheduled_for) (
          claim_due_run json misfire_policy
            (mem_store V)
            croner
            utc
            run_id
            lease_ttl
            instance_id
            id
            job
            now
            scheduled_for
            s)
  unfolding claim_due_run after_once_claim
  claim_run-Handled s job now scheduled_for h = elim (Bool-cases (is_run_once job.schedule_kind)) [
    | inr other ↦ rw (other, claim_due_run) (create-Handled s job now scheduled_for h)
    | inl once ↦
        let run = run_of_job json run_id job scheduled_for in
        let next =
          after_once_claim json misfire_policy (mem_store V) croner utc run_id instance_id id job
            now scheduled_for in
        elim (try_claim_run_once-ClaimsOnce id instance_id now lease_ttl s) [
          | inl (_, o) ↦
              rw (once, claim_due_run)
                (subst (λ r. Handled id s.runs run (next r.0 r.1)) (sym o)
                  (stop-Handled s run (utc 5) h))
          | inr (row, e, _, o) ↦
              let claimed : Job V = once_claimed id instance_id now lease_ttl s row in
              let s' : Store V = record s { jobs = insert id claimed s.jobs } in
              rw (once, claim_due_run)
                (subst (λ r. Handled id s.runs run (next r.0 r.1)) (sym o)
                  (create-Handled s' job now scheduled_for
                    (insert-Stored id s.runs s claimed refl)))
        ]
  ]

  counted-Handled :
      (s : Store V) (job : Job V) (now : Instant) (active : ℤ)
      → Stored id s.runs s
      → Handled id s.runs (run_of_job json run_id job (get_or job.next_run_at now)) (
          enqueue_counted json misfire_policy
            (mem_store V)
            croner
            utc
            run_id
            lease_ttl
            instance_id
            id
            now
            job
            active
            s)
  unfolding enqueue_counted
  counted-Handled s job now active h =
      let run = run_of_job json run_id job (get_or job.next_run_at now) in
      elim (Bool-cases (leb_ℤ job.concurrency active)) [
        | inl full ↦ rw (full, enqueue_counted) (stop-Handled s run (utc 4) h)
        | inr room ↦
            elim (Bool-cases (
              should_enqueue_for_misfire (get_or job.next_run_at now) now
                (get_or (misfire_policy job.misfire_policy_json) default_misfire))) [
                  | inl fire ↦
                      rw (room, enqueue_counted)
                        (rw fire (claim_run-Handled s job now (get_or job.next_run_at now) h))
                  | inr miss ↦ rw (room, enqueue_counted) (rw miss (skip-Handled s run job now h))
                ]
      ]

  -- The handler changed nothing, or the job had a row and was handled.
  abbrev pub HandlesDue : Store V → Result Bool × Store V → Type 0
  HandlesDue s out =
      (out ≡ (ok false, s))
      ⊎ ((job : Job V) × (lookup id s.jobs ≡ some job)
          × Handled id s.runs (run_of_job json run_id job (get_or job.next_run_at (utc 0))) out)

  -- The handler of a due id answers false and changes nothing, or the job has a row; then the row
  -- ends under no tick claim, and the handler answers false and leaves the runs as they were, or
  -- answers true and adds the one run that the row describes.
  pub enqueue_due_job-HandlesDue :
      (claim_uuid : String) (s : Store V)
      → HandlesDue s (
          enqueue_due_job json misfire_policy
            (mem_store V)
            croner
            utc
            claim_uuid
            run_id
            lease_ttl
            instance_id
            id
            s)
  unfolding enqueue_due_job after_tick_claim enqueue_row get_job count_active_runs list_runs_for_job
      run_of_job for_job new_run job_execution_pool_id
  enqueue_due_job-HandlesDue claim_uuid s =
      let next =
        after_tick_claim json misfire_policy (mem_store V) croner utc run_id lease_ttl instance_id
          id in
      elim (claim_job_for_tick-ClaimsTick id (append instance_id (append ":" claim_uuid)) (utc 0)
        lease_ttl s) [
          | inl (_, o) ↦ subst (λ r. HandlesDue s (next r.0 r.1)) (sym o) (inl refl)
          | inr (job, e, _, o) ↦
              subst (λ r. HandlesDue s (next r.0 r.1)) (sym o)
                (inr (
                  job,
                  e,
                  let claimed : Job V =
                        tick_claimed id (append instance_id (append ":" claim_uuid)) (utc 0)
                          lease_ttl s job in
                      let s' : Store V = record s { jobs = insert id claimed s.jobs } in
                      subst
                        (λ row.
                          Handled id s.runs
                            (run_of_job json run_id job (get_or job.next_run_at (utc 0)))
                            (enqueue_row json misfire_policy (mem_store V) croner utc run_id
                              lease_ttl instance_id id (utc 0) row s'))
                        (sym (lookup-insert_self id claimed s.jobs))
                        (counted-Handled s' claimed (utc 0) _
                          (insert-Stored id s.runs s claimed refl)),
                ))
        ]
