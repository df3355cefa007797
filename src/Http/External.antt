-- ===== src/Http/External.antt =====
-- What a client of the upsert route can and cannot bring about: theorems on
-- chronon-axum/src/handlers.rs.
use chronon.Base.{
  ℕ, some, true, false, String, ℤ, Instant, ◌≡◌, refl, List, none, ◌⊎◌, inl, inr, get_or, arith,
}
use chronon.Model.Error.{Result, ok}
use chronon.Model.Job.{Job, ScheduleKind, is_cron}
use chronon.Mem.Claims.{is_due}
use chronon.Http.Request.{UpsertJobRequest, ScheduleKindDto, kind_of_dto}
use chronon.Http.Upsert.{Values, base_job, new_job, with_fields, with_policies, job_of_request}
use chronon.Http.Outcomes.{
  privileged, Settles, then_go-Settles, with_actor-Settles, with_pool-Settles, with_cron-Settles,
  Settles-map,
}
use chronon.Port.{SchedulerStore}
use chronon.Runtime.Service
use chronon.Runtime.Service.{with_partition, with_next_fire}
use chronon.Runtime.Retry.{RetryPolicy, default_retry_policy}
use chronon.Runtime.Retry.Clamp.{clamp_security_bounds, IsBounded, clamp_security_bounds-IsBounded}
use chronon.Scheduler.Cron.{Croner}

module _ {V F C Tz : Type 0} (env : Values V F) (croner : Croner C Tz) where
  -- The actor of a job is the one it had, or one without the shape of a privileged actor.
  abbrev pub IsKept : Job V → Job V → Type 0
  IsKept base job =
      ((job.actor_json ≡ base.actor_json) ⊎ (privileged env croner job.actor_json ≡ false))
      × (job.job_id ≡ base.job_id)
      × (job.created_at ≡ base.created_at)
      × (job.current_revision ≡ base.current_revision)

  abbrev pub stored_policy : Job V → RetryPolicy F
  stored_policy job = get_or (env.decode job.retry_policy_json) (default_retry_policy env.float)

  -- What the handler hands to the coordinator.
  abbrev pub IsAccepted : Job V → Job V → Type 0
  IsAccepted base job =
      IsBounded env.float env.decode env.encode job (stored_policy job) × IsKept base job

  -- Whatever a request to the upsert route holds, it is answered with 400, or the job that is stored
  -- for it has the id, the creation time and the revision number that the handler started from, an
  -- actor that is the one on record or without the shape of a System or ServiceUser actor, and every
  -- knob within its ceiling; provided that 1.0 is finite and that JSON gives back a retry policy with a
  -- finite multiplier.
  pub job_of_request-IsAccepted :
      (now : Instant) (req : UpsertJobRequest V) (base : Job V)
      → env.float.is_finite (env.float.of_u64 1) ≡ true
      → ((policy : RetryPolicy F)
          → env.float.is_finite policy.backoff_multiplier ≡ true
          → env.decode (env.encode policy) ≡ some policy)
      → Settles env croner (IsAccepted base) (job_of_request env croner now req base)
  unfolding job_of_request with_fields with_policies clamp_security_bounds
  job_of_request-IsAccepted now req base one codec =
      let bounded : (job : Job V)
          → IsBounded env.float env.decode env.encode
              (clamp_security_bounds env.float env.decode env.encode job)
              (stored_policy (clamp_security_bounds env.float env.decode env.encode job)) =
        λ job. clamp_security_bounds-IsBounded env.float env.decode env.encode job one codec in
      then_go-Settles env croner (IsKept base) (IsAccepted base) _ _
        (with_actor-Settles env croner (IsKept base) req.actor_json _ (inl refl, refl, refl, refl)
          λ actor plain. (inr plain, refl, refl, refl))
        λ job kept.
          then_go-Settles env croner (IsKept base) (IsAccepted base) _ _
            (with_pool-Settles env croner (IsKept base) req.pool (with_policies env req job) kept
              λ pool. kept)
            λ pooled pooled_kept.
              with_cron-Settles env croner (IsAccepted base) now _ (bounded pooled, pooled_kept)
                λ _ next. (bounded pooled, pooled_kept)

  -- No next fire, and none that a cron expression would set.
  abbrev pub IsUnset : Job V → Type 0
  IsUnset job = (job.next_run_at ≡ none) × (job.schedule_kind ≡ ScheduleKind.run_once)

  new-IsUnset :
      (now fired : Instant) (job_id : String) (req : UpsertJobRequest V)
      → req.schedule_kind ≡ ScheduleKindDto.run_once
      → Settles env croner IsUnset
          (job_of_request env croner fired req (base_job env job_id now req none))
  unfolding job_of_request with_fields with_policies clamp_security_bounds base_job new_job
      kind_of_dto
  new-IsUnset now fired job_id req once =
      let kind : kind_of_dto req.schedule_kind ≡ ScheduleKind.run_once = rw once refl in
      then_go-Settles env croner IsUnset IsUnset _ _
        (with_actor-Settles env croner IsUnset req.actor_json _ (refl, kind)
          λ actor plain. (refl, kind))
        λ job unset.
          then_go-Settles env croner IsUnset IsUnset _ _
            (with_pool-Settles env croner IsUnset req.pool (with_policies env req job) unset
              λ pool. unset)
            λ pooled off.
              with_cron-Settles env croner IsUnset fired _ off
                λ is_on next. absurd (ground (arith, is_on, off.1))

  module _ {S : Type 0} (db : SchedulerStore V S) (partition_hash : String → ℤ)
      (to_value : Job V → Result V) where
    -- The job is stored as it is handed over but for its partition and its time of update, and no query
    -- for due jobs returns the row.
    abbrev pub IsNeverDue : (ℕ → Instant) → Instant → List ℕ → Instant → Job V → Type 0
    IsNeverDue utc now parts until job =
        (stored : Job V) × (Service.prepare db croner partition_hash to_value utc job ≡ ok stored)
        × (is_due now parts until stored ≡ false)

    prepare-IsNeverDue :
        (utc : ℕ → Instant) (now : Instant) (parts : List ℕ) (until : Instant) (job : Job V)
        → IsUnset job
        → IsNeverDue utc now parts until job
    unfolding Service.prepare with_partition with_next_fire is_due
    prepare-IsNeverDue utc now parts until job unset =
        let off : is_cron job.schedule_kind ≡ false = rw unset.1 refl in
        (
          record (with_partition croner partition_hash job) { updated_at = utc 1 },
          rw (off, Service.prepare, with_next_fire) refl,
          rw unset.0 (ground arith),
        )

    -- A run-once request under a new name is answered with 400, or its job is stored as it is handed
    -- over but for its partition and its time of update, and with no instant to run at: no query for
    -- due jobs returns the row, at whatever instant, partitions and horizon.
    pub run_once-IsNeverDue :
        (utc : ℕ → Instant) (now : Instant) (parts : List ℕ) (until : Instant)
        (created fired : Instant) (job_id : String) (req : UpsertJobRequest V)
        → req.schedule_kind ≡ ScheduleKindDto.run_once
        → Settles env croner
            (IsNeverDue utc now parts until)
            (job_of_request env croner fired req (base_job env job_id created req none))
    run_once-IsNeverDue utc now parts until created fired job_id req once =
        Settles-map env croner IsUnset (IsNeverDue utc now parts until)
          (job_of_request env croner fired req (base_job env job_id created req none))
          (new-IsUnset created fired job_id req once) (prepare-IsNeverDue utc now parts until)
