-- ===== src/Scheduler/Tick/Bounds.antt =====
-- What one tick over the in-memory store counts and how long it pauses
-- (chronon-scheduler/src/tick_loop.rs).
use chronon.Base.{
  ℕ, suc, ◌≤◌, max, Option, none, some, Bool, true, false, List, [], ◌∷◌, String, ◌≡◌, refl, sym,
  subst, ◌⊎◌, inl, inr, Instant, arith, length, is_empty, Bool-cases, All, plus_millis,
  if◌then◌else◌,
}
use chronon.Model.Error.{Result, ok, flatten_ok}
use chronon.Model.Run.{Json}
use chronon.Port.{SchedulerStore}
use chronon.Mem.State.{Store}
use chronon.Mem.Port.{mem_store}
use chronon.Mem.Jobs.Index.{IsIndexed}
use chronon.Mem.Claims.{find_due_job_ids_in_partitions, min_next_run_at_in_partitions}
use chronon.Mem.Claims.Due.{FindsDue, StoredDue, find_due_job_ids-FindsDue}
use chronon.Scheduler.Cron.{Croner}
use chronon.Scheduler.Enqueue.{MisfirePolicy, is_ok_true, enqueue_due_job}
use chronon.Scheduler.Enqueue.Effects.{HandlesDue, enqueue_due_job-HandlesDue}
use chronon.Scheduler.Tick.{
  sleeps, yields, Ticked, idle, idle_wait, max_idle_sleep_ms, JobInputs, TickConfig, enqueue_all,
  tick_idle, tick_due, tick_owned, tick_found, run_one_tick,
}

module _ {V S C Tz : Type 0} (json : Json V) (misfire_policy : V → Option MisfirePolicy)
    (db : SchedulerStore V S) (croner : Croner C Tz) (config : TickConfig)
    (inputs : ℕ → JobInputs) where
  -- No id counts more than one run.
  pub enqueue_all-le :
      (i : ℕ) (ids : List String) (s : S)
      → (enqueue_all json misfire_policy db croner config inputs i ids s).0 ≤ length ids
  unfolding enqueue_all
  enqueue_all-le i [] s = omega arith
  enqueue_all-le i (job_id ∷ ids) s =
      let first =
        enqueue_due_job json misfire_policy db croner (inputs i).utc (inputs i).claim_uuid
          (inputs i).run_id config.lease_ttl config.instance_id job_id s in
      elim (Bool-cases (is_ok_true first.0)) [
        | inl t ↦ rw (t, enqueue_all) (omega (arith, enqueue_all-le (suc i) ids first.1))
        | inr f ↦ rw (f, enqueue_all) (omega (arith, enqueue_all-le (suc i) ids first.1))
      ]

nothing_owned : (parts : List ℕ) → is_empty parts ≡ true → parts ≡ []
nothing_owned [] h = refl
nothing_owned (p ∷ ps) h = ground (arith, h)

idle_wait_le :
    (now : Instant) (tick_ms : ℕ) (next : Option Instant)
    → idle_wait now tick_ms next ≤ max tick_ms max_idle_sleep_ms
unfolding idle_wait
idle_wait_le now tick_ms none = ground arith
idle_wait_le now tick_ms (some t) = ground arith

module _ {V C Tz : Type 0} (json : Json V) (misfire_policy : V → Option MisfirePolicy)
    (croner : Croner C Tz) (config : TickConfig) (inputs : ℕ → JobInputs) where
  -- The handler's call for the i-th id.
  abbrev pub handle : ℕ → String → Store V → Result Bool × Store V
  handle i id s =
      enqueue_due_job json misfire_policy (mem_store V) croner (inputs i).utc (inputs i).claim_uuid
        (inputs i).run_id config.lease_ttl config.instance_id id s

  -- Each id is handled once, in turn: the handler adds at most the one run that the row describes, and
  -- says so. The count is of the runs that it added, and the rows are as the last call left them.
  abbrev pub Enqueues : ℕ → List String → Store V → ℕ × Store V → Type 0
  Enqueues i [] s out = out ≡ (0, s)
  Enqueues i (id ∷ ids) s out =
      (first : Result Bool × Store V) × (rest : ℕ × Store V) × (first ≡ handle i id s)
      × HandlesDue json misfire_policy croner (inputs i).utc (inputs i).run_id config.lease_ttl
          config.instance_id id s first
      × Enqueues (suc i) ids first.1 rest
      × (out ≡ ((if is_ok_true first.0 then suc rest.0 else rest.0), rest.1))

  enqueue_all-Enqueues :
      (i : ℕ) (ids : List String) (s : Store V)
      → Enqueues i ids s
          (enqueue_all json misfire_policy (mem_store V) croner config inputs i ids s)
  unfolding enqueue_all
  enqueue_all-Enqueues i [] s = refl
  enqueue_all-Enqueues i (id ∷ ids) s = (
    handle i id s,
    enqueue_all json misfire_policy (mem_store V) croner config inputs (suc i) ids
        (handle i id s).1,
    refl,
    enqueue_due_job-HandlesDue json misfire_policy croner (inputs i).utc (inputs i).run_id
        config.lease_ttl config.instance_id id (inputs i).claim_uuid s,
    enqueue_all-Enqueues (suc i) ids (handle i id s).1,
    refl,
  )

module _ {V C Tz : Type 0} (json : Json V) (misfire_policy : V → Option MisfirePolicy)
    (croner : Croner C Tz) (config : TickConfig) (utc : ℕ → Instant) (inputs : ℕ → JobInputs)
    (owned : List ℕ) (draining : Bool) (s : Store V) where
  abbrev until : Instant
  until = plus_millis (utc 0) (if draining then 50 else 0)

  -- The ids that the store finds due.
  abbrev pub due_query : Result (List String) × Store V
  due_query = find_due_job_ids_in_partitions (utc 1) owned until config.batch_limit s

  -- The branches of a tick: disabled; without partitions; with nothing due; with due jobs.
  abbrev pub Ticks : Ticked × Store V → Type 0
  Ticks out =
      ((config.disabled ≡ true) × (out ≡ (idle draining 30_000, s)))
      ⊎ ((owned ≡ []) × (out ≡ (idle draining 500, s)))
      ⊎ ((ms : ℕ) × (due_query ≡ (ok [], s))
          × (out ≡ (idle false ms, s))
          × (ms ≤ max config.tick_ms max_idle_sleep_ms))
      ⊎ ((ids : List String) × All (StoredDue (utc 1) owned until config.batch_limit s) ids
          × (due_query ≡ (ok ids, s))
          × Enqueues json misfire_policy croner config inputs 0 ids s (out.0.result.enqueued, out.1)
          × (out.0.result.due_count ≡ length ids)
          × (1 ≤ length ids)
          × (length ids ≤ config.batch_limit)
          × (out.0.result.enqueued ≤ length ids)
          × (out.0.pause ≡ (if out.0.draining then yields else sleeps config.tick_ms)))

  min_next_reads : (min_next_run_at_in_partitions owned s).1 ≡ s
  unfolding min_next_run_at_in_partitions
  min_next_reads = elim (Bool-cases (is_empty owned)) [
    | inl t ↦ rw (t, min_next_run_at_in_partitions)
    | inr f ↦ rw (f, min_next_run_at_in_partitions)
  ]

  idle-Ticks :
      due_query ≡ (ok [], s)
      → Ticks (tick_idle json misfire_policy (mem_store V) croner config utc owned (utc 0) s)
  unfolding tick_idle
  idle-Ticks found =
      let next : Result (Option Instant) = (min_next_run_at_in_partitions owned s).0 in
      inr (
        inr (
          inl (
            idle_wait (utc 0) config.tick_ms (flatten_ok next),
            found,
            rw (min_next_reads),
            idle_wait_le (utc 0) config.tick_ms (flatten_ok next),
          )))

  due-Ticks :
      (id : String) (ids : List String)
      → length (id ∷ ids) ≤ config.batch_limit
      → All (StoredDue (utc 1) owned until config.batch_limit s) (id ∷ ids)
      → due_query ≡ (ok (id ∷ ids), s)
      → Ticks (
          tick_due json misfire_policy
            (mem_store V)
            croner
            config
            utc
            inputs
            owned
            (utc 0)
            (id ∷ ids)
            s)
  unfolding tick_due
  due-Ticks id ids le all found = inr (
      inr (
        inr (
          id ∷ ids,
          all,
          found,
          subst
              (λ t.
                Enqueues json misfire_policy croner config inputs 0 (id ∷ ids) s (
                  enqueue_all json misfire_policy (mem_store V) croner config inputs 0 (id ∷ ids)
                    t))
              (sym min_next_reads)
              (enqueue_all-Enqueues json misfire_policy croner config inputs 0 (id ∷ ids) s),
          refl,
          omega arith,
          le,
          enqueue_all-le json misfire_policy (mem_store V) croner config inputs 0 (id ∷ ids) _,
          refl,
        )))

  found-Ticks :
      FindsDue
        (utc 1)
        owned
        until
        config.batch_limit
        s
        (find_due_job_ids_in_partitions (utc 1) owned until config.batch_limit s)
      → Ticks
          (tick_owned json misfire_policy (mem_store V) croner config utc inputs owned draining s)
  unfolding tick_owned tick_found
  found-Ticks ([], o, le, all) =
      subst
        (λ r. Ticks (
          tick_found json misfire_policy (mem_store V) croner config utc inputs owned draining r.0
            r.1))
        (sym o) (idle-Ticks o)
  found-Ticks (id ∷ ids, o, le, all) =
      subst
        (λ r. Ticks (
          tick_found json misfire_policy (mem_store V) croner config utc inputs owned draining r.0
            r.1))
        (sym o) (due-Ticks id ids le all o)

  goes_on :
      config.disabled ≡ false
      → is_empty owned ≡ false
      → run_one_tick json misfire_policy (mem_store V) croner config utc inputs owned draining s
        ≡ tick_owned json misfire_policy (mem_store V) croner config utc inputs owned draining s
  unfolding run_one_tick
  goes_on f g = simp (f, g, run_one_tick)

  -- Where rows and index agree, a tick does one of these: it is disabled and pauses 30 s; the
  -- coordinator owns nothing and it pauses 500 ms; or the store finds nothing due, and it leaves the
  -- store alone and pauses for no longer than the tick interval and 1 s, whichever is longer; or the
  -- store finds at least one and at most `batch_limit` ids, each of a stored job that is due. Then each
  -- id is handled once, in turn, which adds at most the one run that its row describes, the count is
  -- of the runs that were added, and the tick yields or pauses for the tick interval as it is draining
  -- or not.
  pub run_one_tick-Ticks :
      IsIndexed s
      → Ticks
          (run_one_tick json misfire_policy (mem_store V) croner config utc inputs owned draining s)
  unfolding run_one_tick
  run_one_tick-Ticks w = elim (Bool-cases config.disabled) [
    | inl t ↦ rw (t, run_one_tick) (inl (refl, refl))
    | inr f ↦ elim (Bool-cases (is_empty owned)) [
      | inl t ↦ rw (f, run_one_tick) (rw (t) (inr (inl (nothing_owned owned t, refl))))
      | inr g ↦
          subst Ticks (sym (goes_on f g))
            (found-Ticks (find_due_job_ids-FindsDue (utc 1) owned until config.batch_limit s w))
    ]
  ]
