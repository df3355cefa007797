-- ===== src/Runtime/Service/Request.antt =====
-- A run on request over the in-memory store (chronon-runtime/src/coordinator_service.rs).
use chronon.Base.{
  ℕ, Option, none, some, String, ◌≡◌, refl, ◌⊎◌, inl, inr, Instant, arith, lookup, insert, get_or,
  lookup-insert_self,
}
use chronon.Model.Error.{Result, ok, err, job_not_found}
use chronon.Model.Job.{Job}
use chronon.Model.Run.{Run, Json, for_job, new_run}
use chronon.Mem.State.{Store}
use chronon.Mem.Port.{mem_store}
use chronon.Mem.Jobs.{get_job}
use chronon.Mem.Runs.{create_run, claim, claim_run_by_id}
use chronon.Mem.Runs.Claim.{IsFree, claimable_of_IsFree}
use chronon.Scheduler.Partitioning.{job_execution_pool_id}
use chronon.Runtime.Service.{run_on_request, run_found, run_now_with_params_and_actor}

module _ {V : Type 0} (json : Json V) (utc : ℕ → Instant) (run_id id : String)
    (params actor : Option V) (s : Store V) where
  abbrev pub requested : Result String × Store V
  requested = run_now_with_params_and_actor json (mem_store V) utc run_id id params actor s

  abbrev pub run_for : Job V → Run V
  run_for job = run_on_request json run_id (utc 1) job params actor

  -- There is no such job and nothing changes, or the run is stored, and a worker of the job's pool
  -- can claim it from then on.
  abbrev pub Requests : Result String × Store V → Type 0
  Requests r =
      ((lookup id s.jobs ≡ none) × (r ≡ (err (job_not_found id), s)))
      ⊎ ((job : Job V) × (lookup id s.jobs ≡ some job)
          × (r ≡ (ok run_id, record s { runs = insert run_id (run_for job) s.runs }))
          × ((run_for job).params_json ≡ get_or params job.params_json)
          × ((run_for job).actor_json ≡ get_or actor job.actor_json)
          × ((worker : String) (ttl : ℕ)
              → (claim_run_by_id run_id (job_execution_pool_id job) worker (utc 1) ttl r.1).0
                ≡ ok (some (claim worker (utc 1) ttl (run_for job)))))

  run_for-IsFree : (job : Job V) → IsFree (job_execution_pool_id job) (utc 1) (run_for job)
  unfolding run_on_request for_job new_run
  run_for-IsFree job = record {
    waiting = refl;
    due = omega arith;
    unleased = λ u e. cc;
    pooled = inl refl;
  }

  run_for_claimed :
      (job : Job V) (worker : String) (ttl : ℕ)
      → (claim_run_by_id run_id
          (job_execution_pool_id job)
          worker
          (utc 1)
          ttl
          (record s { runs = insert run_id (run_for job) s.runs })).0
        ≡ ok (some (claim worker (utc 1) ttl (run_for job)))
  unfolding claim_run_by_id
  run_for_claimed job worker ttl =
      rw (lookup-insert_self run_id (run_for job) s.runs, claim_run_by_id)
        (rw (
          claimable_of_IsFree (job_execution_pool_id job) (utc 1) (run_for job)
            (run_for-IsFree job)))

  found-Requests :
      (row : Option (Job V))
      → lookup id s.jobs ≡ row
      → Requests (run_found json (mem_store V) utc run_id id params actor row s)
  unfolding run_found create_run run_on_request for_job new_run
  found-Requests none e = inl (e, refl)
  found-Requests (some job) e = inr (job, e, refl, refl, refl, run_for_claimed job)

  -- A run on request is refused where the job is not stored, and then nothing changes; else it is
  -- stored with the parameters and the actor that were given, or else the job's, and a worker of the
  -- job's pool that asks for it by its id at that instant gets it.
  pub run_now-Requests : Requests requested
  unfolding run_now_with_params_and_actor get_job
  run_now-Requests = found-Requests (lookup id s.jobs) refl
