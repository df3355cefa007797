-- ===== src/Scheduler/Enqueue/Rows.antt =====
-- What the store calls of the handler of a due job keep of the job and the runs
-- (chronon-backend-mem/src/store/claims.rs).
use chronon.Base.{
  Option, none, some, Bool, true, false, List, String, ◌≡◌, refl, ◌⊎◌, Instant, lookup, insert,
  lookup-insert_self,
}
use chronon.Model.Error.{Result, ok}
use chronon.Model.Job.{Job}
use chronon.Model.Run.{Run}
use chronon.Mem.State.{Store}
use chronon.Mem.Jobs.{mutate_job_at}
use chronon.Mem.Claims.{
  mark_run_once_completed, persist_post_tick_job_state, release_job_tick_claim, complete_run_once,
}
use chronon.Scheduler.Enqueue.{when}

module _ {V : Type 0} (id : String) (runs : List (String × Run V)) where
  -- The job has a row, and the runs are the given ones.
  abbrev pub Stored : Store V → Type 0
  Stored s = (job : Job V) × (lookup id s.jobs ≡ some job) × (s.runs ≡ runs)

  -- The row is under no tick claim.
  abbrev pub Released : Store V → Type 0
  Released s =
      (job : Job V) × (lookup id s.jobs ≡ some job)
      × (job.claim_lease_until ≡ none)
      × (s.runs ≡ runs)

  pub insert-Stored :
      (s : Store V) (job : Job V)
      → s.runs ≡ runs
      → Stored (record s { jobs = insert id job s.jobs })
  insert-Stored s job r = (job, lookup-insert_self id job s.jobs, r)

  pub mutate-Stored :
      (s : Store V) (now : Instant) (f : Job V → Job V)
      → Stored s
      → Stored (mutate_job_at id now f s).1
  unfolding mutate_job_at
  mutate-Stored s now f (job, e, r) =
      rw (e, mutate_job_at) (insert-Stored s (record (f job) { updated_at = now }) r)

  pub release-Released :
      (s : Store V) (utc : Instant) → Stored s → Released (release_job_tick_claim utc id s).1
  unfolding release_job_tick_claim mutate_job_at
  release-Released s utc (job, e, r) =
      rw (e, release_job_tick_claim, mutate_job_at) (_, lookup-insert_self id _ s.jobs, refl, r)

  pub persist-Released :
      (s : Store V) (utc : Instant) (next : Option Instant)
      → Stored s
      → Released (persist_post_tick_job_state utc id next s).1
  unfolding persist_post_tick_job_state mutate_job_at
  persist-Released s utc next (job, e, r) =
      rw (e, persist_post_tick_job_state, mutate_job_at)
        (_, lookup-insert_self id _ s.jobs, refl, r)

  pub Stored-of_Released : (s : Store V) → Released s → Stored s
  Stored-of_Released s (job, e, free, r) = (job, e, r)

  pub when_mark-Stored :
      (s : Store V) (b : Bool) (utc at : Instant)
      → Stored s
      → Stored (when b (mark_run_once_completed utc id at) s).1
  unfolding mark_run_once_completed
  when_mark-Stored s true utc at h = mutate-Stored s utc (complete_run_once at) h
  when_mark-Stored s false utc at h = h

-- What the handler returns from a claimed job: nothing was enqueued and the runs are as before, or
-- the run `run` was added. In both cases the job's tick claim is gone.
module _ {V : Type 0} (id : String) (runs : List (String × Run V)) (run : Run V) where
  abbrev pub Handled : Result Bool × Store V → Type 0
  Handled (r, t) =
      ((r ≡ ok false) × Released id runs t)
      ⊎ ((r ≡ ok true) × Released id (insert run.run_id run runs) t)
