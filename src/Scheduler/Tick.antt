-- ===== src/Scheduler/Tick.antt =====
-- chronon-scheduler/src/tick_loop.rs: one coordinator tick. What the tick reads from the clock, the
-- fresh UUIDs of each job that it handles, and the tuning from the environment are arguments; the
-- pause at its end is part of the result.
pub mod Bounds
use chronon.Base.{
  ℕ, suc, ◌+◌, ◌-◌, ◌/◌, min, Option, none, some, Bool, true, false, ◌||◌, List, [], ◌∷◌, String,
  Instant, nanos_per_milli, plus_millis, is_some_and, length, is_empty, leb, if◌then◌else◌,
}
use chronon.Model.Error.{Result, ok, err, Io, ◌>>=◌, pure, flatten_ok}
use chronon.Model.Run.{Json}
use chronon.Port.{SchedulerStore}
use chronon.Scheduler.Cron.{Croner}
use chronon.Scheduler.Enqueue.{MisfirePolicy, enqueue_due_job, is_ok_true}

pub record TickResult : Type 0 where
  pub enqueued : ℕ
  pub due_count : ℕ

-- `sleep(Duration::from_millis(n))` or `yield_now()`
pub data Pause : Type 0 where
  sleeps : ℕ → Pause
  yields : Pause

-- What one tick leaves: its result, the new value of `draining` and its pause.
pub record Ticked : Type 0 where
  pub result : TickResult
  pub draining : Bool
  pub pause : Pause

abbrev pub max_idle_sleep_ms : ℕ
max_idle_sleep_ms = 1000

abbrev pub idle : Bool → ℕ → Ticked
idle draining ms = record {
  result = record { enqueued = 0; due_count = 0 };
  draining = draining;
  pause = sleeps ms;
}

-- With nothing due: until 20 ms before the next known fire, at most `max_idle_sleep_ms`.
unfoldable pub idle_wait : Instant → ℕ → Option Instant → ℕ
idle_wait now tick_ms none = tick_ms
idle_wait now tick_ms (some t) = min ((t - now) / nanos_per_milli - 20) max_idle_sleep_ms

-- The clock readings and the UUIDs of the handler of one job.
pub record JobInputs : Type 0 where
  pub utc : ℕ → Instant
  pub claim_uuid : String
  pub run_id : String

pub record TickConfig : Type 0 where
  pub disabled : Bool
  pub tick_ms : ℕ
  pub batch_limit : ℕ
  pub lease_ttl : ℕ
  pub instance_id : String

module _ {V S C Tz : Type 0} (json : Json V) (misfire_policy : V → Option MisfirePolicy)
    (db : SchedulerStore V S) (croner : Croner C Tz) (config : TickConfig) where
  -- The loop over the due ids; the result counts the runs that were enqueued.
  unfoldable pub enqueue_all : (ℕ → JobInputs) → ℕ → List String → Io S ℕ
  enqueue_all inputs i [] = pure 0
  enqueue_all inputs i (job_id ∷ ids) = do
    enqueued ←
        enqueue_due_job json misfire_policy db croner (inputs i).utc (inputs i).claim_uuid
          (inputs i).run_id config.lease_ttl config.instance_id job_id
    rest ← enqueue_all inputs (suc i) ids
    pure (if is_ok_true enqueued then suc rest else rest)

  unfoldable pub tick_idle : (ℕ → Instant) → List ℕ → Instant → Io S Ticked
  tick_idle utc owned now = do
    next ← db.min_next_run_at_in_partitions (utc 2) owned
    pure (idle false (idle_wait now config.tick_ms (flatten_ok next)))

  unfoldable pub tick_due :
      (ℕ → Instant) → (ℕ → JobInputs) → List ℕ → Instant → List String → Io S Ticked
  tick_due utc inputs owned now ids = do
    next ← db.min_next_run_at_in_partitions (utc 2) owned
    let soon = is_some_and (λ t. leb t (plus_millis now 250)) (flatten_ok next)
    let draining = leb (config.batch_limit / 2) (length ids) || soon
    enqueued ← enqueue_all inputs 0 ids
    pure (record {
      result = record { enqueued = enqueued; due_count = length ids };
      draining = draining;
      pause = if draining then yields else sleeps config.tick_ms;
    })

  unfoldable pub tick_found :
      (ℕ → Instant) → (ℕ → JobInputs) → List ℕ → Bool → Result (List String) → Io S Ticked
  tick_found utc inputs owned draining (err e) = pure (idle draining config.tick_ms)
  tick_found utc inputs owned draining (ok []) = tick_idle utc owned (utc 0)
  tick_found utc inputs owned draining (ok (id ∷ ids)) =
      tick_due utc inputs owned (utc 0) (id ∷ ids)

  unfoldable pub tick_owned : (ℕ → Instant) → (ℕ → JobInputs) → List ℕ → Bool → Io S Ticked
  tick_owned utc inputs owned draining = do
    found ←
        db.find_due_job_ids_in_partitions (utc 1) owned
          (plus_millis (utc 0) (if draining then 50 else 0)) config.batch_limit
    tick_found utc inputs owned draining found

  unfoldable pub run_one_tick : (ℕ → Instant) → (ℕ → JobInputs) → List ℕ → Bool → Io S Ticked
  run_one_tick utc inputs owned draining = elim config.disabled [
    | true ↦ pure (idle draining 30_000)
    | false ↦ elim (is_empty owned) [
      | true ↦ pure (idle draining 500)
      | false ↦ tick_owned utc inputs owned draining
    ]
  ]
