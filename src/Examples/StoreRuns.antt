-- ===== src/Examples/StoreRuns.antt =====
-- Jobs, their claims and the due query on concrete stores.
use chronon.Base.{
  some, true, false, List, [], ◌∷◌, String, ◌≡◌, refl, inr, arith, lookup, insert, any, ◌==◌,
  text_discrete, sort_by,
}
use chronon.Model.Error.{ok}
use chronon.Model.Job.{Job}
use chronon.Mem.State.{Store, new}
use chronon.Mem.Jobs.{upsert_job, write_job, put_job, drop_old_name}
use chronon.Mem.Jobs.Index.{IsIndexed}
use chronon.Mem.Jobs.Contract.{Upserts, upsert_job-Upserts, Deletes, delete_job-Deletes}
use chronon.Mem.Claims.{
  try_claim_run_once, claim_job_for_tick, mark_run_once_completed, find_due_job_ids_in_partitions,
  is_due,
}
use chronon.Mem.Claims.Outcomes.{ClaimsOnce, try_claim_run_once-ClaimsOnce}
use chronon.Mem.Claims.History.{
  JobCall, pauses, claims_tick, completes_once, run_calls, apply, run_calls-new-IsIndexed,
}
use chronon.Mem.Claims.Exclusive.{completed_once, tick_claim_exclusive}
use chronon.Mem.Claims.Due.{FindsDue, find_due_job_ids-FindsDue, find_due_job_ids_complete}
use chronon.Examples.{at, nightly, launch, two_jobs}

abbrev two : Store String
two = run_calls two_jobs (new String)

run_calls-new-IsIndexed_example : IsIndexed (run_calls two_jobs (new String))
run_calls-new-IsIndexed_example = run_calls-new-IsIndexed two_jobs

upsert_job-Upserts_example : Upserts (record launch { job_name = "nightly" }) two
upsert_job-Upserts_example =
    upsert_job-Upserts (record launch { job_name = "nightly" }) two
      (run_calls-new-IsIndexed two_jobs)

delete_job-Deletes_example : Deletes "job-1" two
delete_job-Deletes_example = delete_job-Deletes "job-1" two

try_claim_run_once-ClaimsOnce_example : ClaimsOnce "job-2" "host-a" (at 60) 5 two
try_claim_run_once-ClaimsOnce_example = try_claim_run_once-ClaimsOnce "job-2" "host-a" (at 60) 5 two

-- The run-once job was enqueued; then it is paused and another job is claimed.
abbrev later_calls : List (JobCall String)
later_calls = pauses (at 61) "job-2" ∷ claims_tick "job-1" "host-a:1" (at 62) 5 ∷ []

abbrev enqueued : Store String
enqueued = run_calls (completes_once (at 60) "job-2" (at 60) ∷ []) two

abbrev enqueued_launch : Job String
enqueued_launch = record launch { run_once_completed_at = some (at 60); updated_at = at 60 }

completed_once_example :
    try_claim_run_once "job-2" "host-b" (at 70) 5 (run_calls later_calls enqueued)
    ≡ (ok false, run_calls later_calls enqueued)
unfolding run_calls apply upsert_job write_job put_job drop_old_name new lookup insert text_discrete
    sort_by mark_run_once_completed
completed_once_example =
    completed_once "job-2" later_calls enqueued enqueued_launch (at 60) refl refl (tt, (tt, tt))
      "host-b" (at 70) 5

-- `host-a` has claimed the job for five seconds.
abbrev ticking : Store String
ticking = run_calls (claims_tick "job-1" "host-a:1" (at 60) 5 ∷ []) two

abbrev ticking_nightly : Job String
ticking_nightly = record nightly {
  claim_lease_id = some "host-a:1";
  claim_lease_until = some (at 65);
  updated_at = at 60;
}

abbrev rival_calls : List (JobCall String)
rival_calls = claims_tick "job-1" "host-b:1" (at 62) 5 ∷ pauses (at 63) "job-1" ∷ []

tick_claim_exclusive_example :
    claim_job_for_tick "job-1" "host-c:1" (at 64) 5 (run_calls rival_calls ticking)
    ≡ (ok false, run_calls rival_calls ticking)
unfolding run_calls apply upsert_job write_job put_job drop_old_name new lookup insert text_discrete
    sort_by claim_job_for_tick
tick_claim_exclusive_example =
    tick_claim_exclusive "job-1" (at 65) rival_calls ticking ticking_nightly (at 65) refl refl
      (omega arith) (omega arith, (tt, tt)) "host-c:1" (at 64) 5 (omega arith)

find_due_job_ids-FindsDue_example :
    FindsDue
      (at 60)
      (3 ∷ [])
      (at 60)
      10
      two
      (find_due_job_ids_in_partitions (at 60) (3 ∷ []) (at 60) 10 two)
find_due_job_ids-FindsDue_example =
    find_due_job_ids-FindsDue (at 60) (3 ∷ []) (at 60) 10 two (run_calls-new-IsIndexed two_jobs)

find_due_job_ids_complete_example : any (λ k. k == "job-2") ("job-1" ∷ "job-2" ∷ []) ≡ true
unfolding run_calls apply upsert_job write_job put_job drop_old_name new lookup insert text_discrete
    sort_by find_due_job_ids_in_partitions is_due
find_due_job_ids_complete_example =
    find_due_job_ids_complete (at 60) (3 ∷ []) (at 60) 10 two ("job-1" ∷ "job-2" ∷ []) "job-2"
      launch (run_calls-new-IsIndexed two_jobs) refl (omega arith) refl
      (record {
        is_enabled = refl;
        not_manual = refl;
        owned = refl;
        fire = (at 60, refl, omega arith);
        unclaimed = refl;
        not_completed = inr refl;
      })
