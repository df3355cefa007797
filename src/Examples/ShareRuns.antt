-- ===== src/Examples/ShareRuns.antt =====
-- The partition leases and a worker's round on concrete stores.
use chronon.Base.{
  ℕ, Option, none, some, true, [], ◌∷◌, String, ◌≢◌, refl, ap, arith, eqb, ◌==◌, lookup,
  text_discrete, if◌then◌else◌,
}
use chronon.Model.Coordination.{PartitionAssignment}
use chronon.Model.Error.{Io}
use chronon.Model.Job.{Job}
use chronon.Model.Run.{Run, for_job, new_run}
use chronon.Mem.Port.{mem_store}
use chronon.Mem.State.{Store, new}
use chronon.Runtime.Retry.{Failures}
use chronon.Runtime.Worker.{ScriptEnd, serve}
use chronon.Runtime.Worker.Ends.{Serves, serve-Serves}
use chronon.Scheduler.Assigner.{refresh_leases}
use chronon.Scheduler.Assigner.Leases.{Keeps, refresh_leases-Keeps}
use chronon.Scheduler.Leader.{new_assigner}
use chronon.Examples.{json, at, still, nightly, queued_run}

abbrev show_u32 : ℕ → String
show_u32 n = if eqb n 0 then "0" else "1"

abbrev parse_u32 : String → Option ℕ
parse_u32 s = if s == "0" then some 0 else if s == "1" then some 1 else none

-- One of two partitions is leased to another coordinator until 100 seconds.
abbrev rival_row : PartitionAssignment
rival_row = record {
  partition_id = "0";
  owner_instance_id = "host-b";
  lease_until = at 100;
  updated_at = at 40;
}

abbrev shared : Store String
shared = record (new String) { partitions = ("0", rival_row) ∷ [] }

rival_differs : ◌≢◌ {A = String} "host-b" "host-a"
unfolding text_discrete
rival_differs p = cc (ap (λ (s : String). s == "host-a") p)

refresh_leases-Keeps_example :
    Keeps "0" rival_row
      (refresh_leases
        (mem_store String)
        show_u32
        parse_u32
        "host-a"
        60
        (λ loop round k. at 50)
        (λ pass k. at 50)
        (new_assigner 2)
        shared).1
unfolding new lookup text_discrete
refresh_leases-Keeps_example =
    refresh_leases-Keeps show_u32 parse_u32 "host-a" 60 "0" rival_row rival_differs
      (λ loop round k. at 50) (λ pass k. at 50) (new_assigner 2) shared (λ round. omega arith)
      ((refl, tt), refl)

abbrev env : Failures String ℕ
env = record {
  json = json;
  float = record {
    of_u64 = λ n. n;
    times = λ a b. a;
    powi = λ a n. a;
    is_finite = λ a. true;
    is_positive = λ a. true;
    is_below_one = λ a. eqb a 0;
    to_u64 = λ a. a;
  };
  retry_policy = λ v. none;
  contains = λ a b. a == b;
}

-- The run's job is stored, and its script fails within its time.
abbrev claimed_store : Store String
claimed_store = record (new String) {
  jobs = ("job-1", nightly) ∷ [];
  runs = ("run-1", queued_run) ∷ [];
}

abbrev fails_soon : Run String → Job String → Io (Store String) (Option ScriptEnd)
fails_soon run job s = (
  some (record {
    error = some "boom";
    logs = record { stdout_text = none; stderr_text = none };
    took_ms = 5;
  }),
  s,
)

fresh_id : ◌≢◌ {A = String} "run-2" "run-1"
unfolding text_discrete
fresh_id p = cc (ap (λ (s : String). s == "run-1") p)

serve-Serves_example :
    Serves env
      (λ n. "ms")
      fails_soon
      (still 90)
      "run-2"
      queued_run
      claimed_store
      (serve env
        (mem_store String)
        (λ n. "ms")
        fails_soon
        (still 90)
        "run-2"
        queued_run
        claimed_store)
unfolding new for_job new_run lookup text_discrete
serve-Serves_example =
    serve-Serves env (λ n. "ms") fails_soon (still 90) "run-2" queued_run claimed_store fresh_id
      (queued_run, refl) (λ r job s held. held)
