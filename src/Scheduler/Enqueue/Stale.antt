-- ===== src/Scheduler/Enqueue/Stale.antt =====
-- Two coordinators that hold the same due id (chronon-scheduler/src/tick_loop.rs): the handler does
-- not test again that the job is due once it holds the tick claim.
use Prim.Native.String.{◌++◌ as append}
use chronon.Base.{
  ℕ, ◌≤◌, Option, some, Bool, true, false, String, ◌≡◌, inl, inr, refl, Instant, arith, lookup,
  insert, ℤ, leb_ℤ, get_or,
}
use chronon.Model.Error.{Result, ok}
use chronon.Model.Job.{Job, is_run_once}
use chronon.Model.Run.{Run, Json, for_job, new_run}
use chronon.Mem.State.{Store}
use chronon.Mem.Claims.Outcomes.{IsTickable}
use chronon.Scheduler.Cron.{Croner}
use chronon.Scheduler.Enqueue.{
  MisfirePolicy, next_fire, run_of_job, should_enqueue_for_misfire, default_misfire,
}
use chronon.Scheduler.Enqueue.Fires.{handled, fired, active, fires, should_enqueue_iff}

-- What a handler call reads: its clock, its two UUIDs and its instance id.
pub record Caller : Type 0 where
  pub utc : ℕ → Instant
  pub claim_uuid : String
  pub run_id : String
  pub instance_id : String

module _ {V C Tz : Type 0} (json : Json V) (misfire_policy : V → Option MisfirePolicy)
    (croner : Croner C Tz) (lease_ttl : ℕ) (id : String) (s : Store V) (job : Job V) where
  abbrev pub call : Caller → Store V → Result Bool × Store V
  call c t =
      handled json misfire_policy croner c.utc c.claim_uuid c.run_id lease_ttl c.instance_id id t
        job

  abbrev pub running_at : Caller → Store V → ℤ
  running_at c t =
      active json misfire_policy croner c.utc c.claim_uuid c.run_id lease_ttl c.instance_id id t job

  -- A recurring job that a first handler has just enqueued, at its due time and with the next fire
  -- `u` stored, is enqueued once more, for `u`, by a second handler that still holds the job's id from
  -- before and comes no later than `u`, wherever the concurrency limit leaves room for it.
  pub stale_id_fires_again :
      (a b : Caller) (u : Instant)
      → lookup id s.jobs ≡ some job
      → IsTickable id (append a.instance_id (append ":" a.claim_uuid)) (a.utc 0) lease_ttl s job
      → is_run_once job.schedule_kind ≡ false
      → leb_ℤ job.concurrency (running_at a s) ≡ false
      → should_enqueue_for_misfire
          (get_or job.next_run_at (a.utc 0))
          (a.utc 0)
          (get_or (misfire_policy job.misfire_policy_json) default_misfire)
        ≡ true
      → next_fire croner job (a.utc 0) ≡ some u
      → leb_ℤ job.concurrency (running_at b (call a s).1) ≡ false
      → b.utc 0 ≤ u
      → ((call b (call a s).1).0 ≡ ok true)
        × ((run : Run V) × (run.scheduled_for ≡ u)
            × (run.run_id ≡ b.run_id)
            × ((call b (call a s).1).1.runs ≡ insert run.run_id run (call a s).1.runs))
  unfolding run_of_job for_job new_run
  stale_id_fires_again a b u e free other room fire next room' early =
      let row : Job V =
        fired json misfire_policy croner a.utc a.claim_uuid a.run_id lease_ttl a.instance_id id s
          job in
      let first =
        fires json misfire_policy croner a.utc a.claim_uuid a.run_id lease_ttl a.instance_id id s
          job e free other room fire in
      let due_at : Instant = get_or row.next_run_at (b.utc 0) in
      let at_u : due_at ≡ u = rw next in
      let policy : MisfirePolicy =
        get_or (misfire_policy job.misfire_policy_json) default_misfire in
      let on_time : should_enqueue_for_misfire due_at (b.utc 0) policy ≡ true =
        (should_enqueue_iff due_at (b.utc 0) policy).1 (inr (inl (omega arith))) in
      let second =
        fires json misfire_policy croner b.utc b.claim_uuid b.run_id lease_ttl b.instance_id id
          (call a s).1 row first.2 (record { is_enabled = free.is_enabled; unclaimed = λ v h. cc })
          other room' on_time in
      (second.0, (run_of_job json b.run_id row due_at, at_u, refl, second.1))
