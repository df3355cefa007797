-- ===== src/Examples/WorkerRuns.antt =====
-- Claims and leases of runs on concrete stores.
use chronon.Base.{ℕ, none, List, [], ◌∷◌, String, ◌≡◌, refl, arith, lookup, Distinct, text_discrete}
use chronon.Model.Error.{ok}
use chronon.Model.Run.{Run, for_job, new_run}
use chronon.Mem.State.{Store, new}
use chronon.Mem.Runs.{claim_run_by_id, claim}
use chronon.Mem.Runs.Claim.{
  TakesFirst, claim_next_queued-TakesFirst, TakesRun, claim_run_by_id-TakesRun,
}
use chronon.Mem.Runs.Renew.{Renews, renew_run_lease-Renews}
use chronon.Mem.Runs.Lease.{
  WorkerCall, claims_next, claims_id, renews, reclaims, run_calls, Holds, lease_exclusive,
}
use chronon.Examples.{at, queued_run}

-- The run waits and `host-a` then claims it for five minutes.
abbrev waiting : Store String
waiting = record (new String) { runs = ("run-1", queued_run) ∷ [] }

abbrev held_run : Run String
held_run = claim "host-a" (at 60) 300 queued_run

abbrev held : Store String
held = record (new String) { runs = ("run-1", held_run) ∷ [] }

waiting-Distinct : Distinct waiting.runs
unfolding new lookup
waiting-Distinct = (refl, tt)

held-Distinct : Distinct held.runs
unfolding new lookup
held-Distinct = (refl, tt)

claim_next_queued-TakesFirst_example : TakesFirst "general" "host-a" (at 60) 300 waiting
claim_next_queued-TakesFirst_example =
    claim_next_queued-TakesFirst "general" "host-a" (at 60) 300 waiting waiting-Distinct

claim_run_by_id-TakesRun_example : TakesRun "general" "host-a" (at 60) 300 waiting "run-1"
claim_run_by_id-TakesRun_example =
    claim_run_by_id-TakesRun "general" "host-a" (at 60) 300 waiting "run-1"

renew_run_lease-Renews_example : Renews "run-1" "host-a" (at 90) 300 held
renew_run_lease-Renews_example = renew_run_lease-Renews "run-1" "host-a" (at 90) 300 held

-- A second worker tries to claim, the reclaim task runs, and the first worker renews.
abbrev calls : List (WorkerCall String)
calls =
    claims_id "run-1" "general" "host-b" (at 100) 300
    ∷ reclaims (at 200)
    ∷ renews "run-1" "host-a" (at 250) 300
    ∷ claims_next "general" "host-b" (at 300) 300
    ∷ []

lease_exclusive_example :
    Holds "run-1" "host-a" (at 359) (run_calls calls held)
    × ((pool rival : String) (now : ℕ) (ttl : ℕ)
        → claim_run_by_id "run-1" pool rival now ttl (run_calls calls held)
          ≡ (ok none, run_calls calls held))
unfolding new lookup claim new_run for_job text_discrete
lease_exclusive_example =
    lease_exclusive "run-1" "host-a" (at 359) calls held
      (tt, (omega arith, (omega arith, (tt, tt)))) held-Distinct
      (held_run, refl, (refl, refl, at 360, refl, omega arith))
