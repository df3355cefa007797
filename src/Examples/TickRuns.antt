-- ===== src/Examples/TickRuns.antt =====
-- The handler of a due job, a tick and leader election on concrete stores.
use Prim.Native.String.{◌++◌ as append}
use chronon.Base.{
  ◌==◌, ◌≢◌, ℕ, ◌+◌, ◌*◌, ◌/◌, Option, none, some, Bool, true, false, [], ◌∷◌, String, ◌≡◌, refl,
  inr, arith, lookup, insert, text_discrete, sort_by, insert_by,
}
use chronon.Model.Error.{Result, ok}
use chronon.Model.Run.{Run, for_job, new_run}
use chronon.Model.Coordination.{SchedulerLeader}
use chronon.Mem.State.{Store, new}
use chronon.Mem.Port.{mem_store}
use chronon.Mem.Jobs.{
  upsert_job, write_job, put_job, drop_old_name, mutate_job_at, mutate_job, get_job,
}
use chronon.Mem.Runs.{list_runs_for_job, create_run}
use chronon.Model.Status.{is_active}
use chronon.Mem.Claims.{in_partitions, persist_post_tick_job_state, claim_job_for_tick}
use chronon.Mem.Claims.Outcomes.{IsTickable}
use chronon.Mem.Claims.History.{run_calls, apply, run_calls-new-IsIndexed}
use chronon.Scheduler.Cron.{Croner, parse, next_after}
use chronon.Scheduler.Partitioning.{partition_hash_i64_for_job_id, num_partitions_from_env}
use chronon.Scheduler.Enqueue.{
  MisfirePolicy, enqueue_due_job, should_enqueue_for_misfire, count_active_runs, next_fire,
  cron_next_run_at, after_tick_claim, enqueue_row, enqueue_counted, claim_due_run, create_due_run,
  run_of_job,
}
use chronon.Scheduler.Enqueue.Effects.{HandlesDue, enqueue_due_job-HandlesDue}
use chronon.Scheduler.Enqueue.Fires.{handled, Fires, fires}
use chronon.Scheduler.Enqueue.Stale.{Caller, call, stale_id_fires_again}
use chronon.Scheduler.Tick.{TickConfig, JobInputs, run_one_tick}
use chronon.Scheduler.Tick.Bounds.{Ticks, run_one_tick-Ticks}
use chronon.Scheduler.Leader.{PartitionAssigner, new_assigner, assign_all_embedded}
use chronon.Scheduler.Leader.Election.{
  elector, stepped, Leads, step_once-Leads, Excluded, rival_excludes, acquired_row,
  standby_takes_over,
}
use chronon.Scheduler.Leader.Coverage.{leader_owns_every_job}
use chronon.Examples.{json, at, still, nightly, two_jobs}

-- Every expression fires at each full minute.
abbrev each_minute : Croner ℕ ℕ
each_minute = record {
  parse_schedule = λ e. some 0;
  message = λ e. e;
  parse_timezone = λ z. some 0;
  utc = 0;
  find_next_occurrence = λ c z t. some (at ((t / at 60 + 1) * 60));
}

abbrev no_policy : String → Option MisfirePolicy
no_policy v = none

abbrev two : Store String
two = run_calls two_jobs (new String)

enqueue_due_job-HandlesDue_example :
    HandlesDue json no_policy each_minute (still 60) "run-1" 5 "host-a" "job-1" two (
      enqueue_due_job json no_policy
        (mem_store String)
        each_minute
        (still 60)
        "uuid-1"
        "run-1"
        5
        "host-a"
        "job-1"
        two)
enqueue_due_job-HandlesDue_example =
    enqueue_due_job-HandlesDue json no_policy each_minute (still 60) "run-1" 5 "host-a" "job-1"
      "uuid-1" two

nightly-IsTickable :
    IsTickable "job-1" (append "host-a" (append ":" "uuid-1")) (at 60) 5 two nightly
nightly-IsTickable = record { is_enabled = refl; unclaimed = λ u h. cc }

fires_example :
    Fires json no_policy each_minute (still 60) "uuid-1" "run-1" 5 "host-a" "job-1" two nightly (
      handled json no_policy each_minute (still 60) "uuid-1" "run-1" 5 "host-a" "job-1" two nightly)
unfolding run_calls apply upsert_job write_job put_job drop_old_name new lookup insert text_discrete
    sort_by count_active_runs list_runs_for_job should_enqueue_for_misfire
fires_example =
    fires json no_policy each_minute (still 60) "uuid-1" "run-1" 5 "host-a" "job-1" two nightly refl
      nightly-IsTickable refl refl refl

-- Both hosts read the job's id while it was due; `host-b` handles it after `host-a`.
abbrev host_a : Caller
host_a = record { utc = still 60; claim_uuid = "uuid-1"; run_id = "run-1"; instance_id = "host-a" }

abbrev host_b : Caller
host_b = record { utc = still 61; claim_uuid = "uuid-2"; run_id = "run-2"; instance_id = "host-b" }

abbrev call_of : Caller → Store String → Result Bool × Store String
call_of = call json no_policy each_minute 5 "job-1" two nightly

stale_id_fires_again_example :
    ((call_of host_b (call_of host_a two).1).0 ≡ ok true)
    × ((run : Run String) × (run.scheduled_for ≡ at 120)
        × (run.run_id ≡ "run-2")
        × ((call_of host_b (call_of host_a two).1).1.runs
            ≡ insert run.run_id run (call_of host_a two).1.runs))
unfolding run_calls apply upsert_job write_job put_job drop_old_name new lookup insert text_discrete
    sort_by insert_by count_active_runs list_runs_for_job should_enqueue_for_misfire next_fire
    cron_next_run_at parse next_after enqueue_due_job after_tick_claim enqueue_row enqueue_counted
    claim_due_run create_due_run persist_post_tick_job_state mutate_job_at mutate_job create_run
    get_job run_of_job for_job new_run claim_job_for_tick is_active
stale_id_fires_again_example =
    stale_id_fires_again json no_policy each_minute 5 "job-1" two nightly host_a host_b (at 120)
      refl nightly-IsTickable refl refl refl refl refl (omega arith)

abbrev config : TickConfig
config = record {
  disabled = false;
  tick_ms = 250;
  batch_limit = 500;
  lease_ttl = 5;
  instance_id = "host-a";
}

abbrev inputs : ℕ → JobInputs
inputs i = record { utc = still 60; claim_uuid = "uuid-1"; run_id = "run-1" }

run_one_tick-Ticks_example :
    Ticks json no_policy each_minute config (still 60) inputs (3 ∷ []) false two (
      run_one_tick json no_policy
        (mem_store String)
        each_minute
        config
        (still 60)
        inputs
        (3 ∷ [])
        false
        two)
run_one_tick-Ticks_example =
    run_one_tick-Ticks json no_policy each_minute config (still 60) inputs (3 ∷ []) false two
      (run_calls-new-IsIndexed two_jobs)

abbrev assigner : PartitionAssigner
assigner = new_assigner 4

-- `host-b` leads until the 30th second.
abbrev led : Store String
led = record (new String) {
  leader = some (record {
    leader_id = "singleton";
    leader_instance_id = "host-b";
    leader_lease_until = at 30;
    last_heartbeat_at = at 0;
  });
}

abbrev led_row : SchedulerLeader
led_row = record {
  leader_id = "singleton";
  leader_instance_id = "host-b";
  leader_lease_until = at 30;
  last_heartbeat_at = at 0;
}

step_once-Leads_example :
    Leads 30 (still 40) "host-a" assigner led (stepped 30 (still 40) "host-a" assigner led false)
unfolding new_assigner
step_once-Leads_example =
    step_once-Leads 30 (still 40) "host-a" assigner led false (omega arith) (inr (refl, refl))

differs : (a b : String) → (a == b) ≡ false → a ≢ b
differs a b h = ground arith

host_b_is_other : ◌≢◌ {A = String} "host-b" "host-a"
unfolding text_discrete
host_b_is_other = differs "host-b" "host-a" refl

rival_excludes_example :
    Excluded 30 (still 20) "host-a" assigner led (stepped 30 (still 20) "host-a" assigner led true)
rival_excludes_example =
    rival_excludes 30 (still 20) "host-a" assigner led led_row refl host_b_is_other (omega arith)
      true

standby_takes_over_example : stepped 30 (still 40) "host-a" assigner led false ≡ (
  (elector "host-a" true, assign_all_embedded assigner),
  record led { leader = some (acquired_row 30 (still 40) "host-a" assigner led) },
)
standby_takes_over_example =
    standby_takes_over 30 (still 40) "host-a" assigner led (λ row e. ground arith)

leader_owns_every_job_example :
    in_partitions
      (assign_all_embedded (new_assigner (num_partitions_from_env (λ name. some 8)))).owned
      (some (partition_hash_i64_for_job_id (λ name. some 8) (λ id. 13) "job-1"))
    ≡ true
leader_owns_every_job_example = leader_owns_every_job (λ name. some 8) (λ id. 13) "job-1"
