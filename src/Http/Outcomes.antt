-- ===== src/Http/Outcomes.antt =====
-- What each step of the upsert handler leaves of a job, as rules over its outcome.
use chronon.Base.{
  Option, none, some, Bool, true, false, ◌||◌, String, Instant, ◌≡◌, refl, inl, inr, Bool-cases,
  Option-cases,
}
use chronon.Model.Error.{Result, ok, err}
use chronon.Model.Job.{Job, is_cron}
use chronon.Http.Request.{validate, external, is_system_shaped_actor, is_service_user_shaped_actor}
use chronon.Http.Response.{bad_request, chronon_status}
use chronon.Http.Upsert.{
  Values, Outcome, go, stop, Checked, fine, refused, normalize_pool, with_actor, accept_actor,
  with_pool, set_pool, set_next, with_cron, then_go,
}
use chronon.Scheduler.Cron.{Croner, CronExpr, parse}

module _ {V F C Tz : Type 0} (env : Values V F) (croner : Croner C Tz) where
  abbrev pub privileged : V → Bool
  privileged actor =
      is_system_shaped_actor env.has_key actor || is_service_user_shaped_actor env.has_key actor

  -- The job has the property, or the answer is 400.
  abbrev pub Settles : (Job V → Type 0) → Outcome (Job V) → Type 0
  Settles P (go job) = P job
  Settles P (stop answer message) = answer ≡ bad_request

  pub then_go-Settles :
      (P Q : Job V → Type 0) (o : Outcome (Job V)) (f : Job V → Outcome (Job V))
      → Settles P o
      → ((job : Job V) → P job → Settles Q (f job))
      → Settles Q (then_go o f)
  then_go-Settles P Q (go job) f p k = k job p
  then_go-Settles P Q (stop answer message) f p k = p

  pub Settles-map :
      (P Q : Job V → Type 0) (o : Outcome (Job V))
      → Settles P o
      → ((job : Job V) → P job → Q job)
      → Settles Q o
  Settles-map P Q (go job) p k = k job p
  Settles-map P Q (stop answer message) p k = p

  module _ (P : Job V → Type 0) where
    accept-Settles :
        (actor : V) (job : Job V)
        → (privileged actor ≡ false → P (record job { actor_json = actor }))
        → Settles P (accept_actor env actor job (validate env.has_key external actor))
    unfolding validate chronon_status
    accept-Settles actor job p = elim (Bool-cases (privileged actor)) [
      | inl t ↦ rw t refl
      | inr f ↦ rw f (p f)
    ]

    pub with_actor-Settles :
        (given : Option V) (job : Job V)
        → P job
        → ((actor : V) → privileged actor ≡ false → P (record job { actor_json = actor }))
        → Settles P (with_actor env given job)
    unfolding with_actor
    with_actor-Settles none job p q = p
    with_actor-Settles (some actor) job p q = elim (Bool-cases (env.is_null actor)) [
      | inl t ↦ rw t p
      | inr f ↦ rw f (accept-Settles actor job (q actor))
    ]

    set_pool-Settles :
        (pool : Checked (Option String)) (job : Job V)
        → ((pool : Option String) → P (record job { pool = pool }))
        → Settles P (set_pool env job pool)
    set_pool-Settles (fine pool) job p = p pool
    set_pool-Settles (refused message) job p = refl

    pub with_pool-Settles :
        (given : Option String) (job : Job V)
        → P job
        → ((pool : Option String) → P (record job { pool = pool }))
        → Settles P (with_pool env given job)
    unfolding with_pool
    with_pool-Settles none job p q = p
    with_pool-Settles (some pool) job p q = set_pool-Settles (normalize_pool pool) job q

    set_next-Settles :
        (now : Instant) (job : Job V) (r : Result (CronExpr C Tz))
        → ((next : Option Instant) → P (record job { next_run_at = next }))
        → Settles P (set_next env croner now job r)
    set_next-Settles now job (ok c) p = p _
    set_next-Settles now job (err e) p = refl

    pub with_cron-Settles :
        (now : Instant) (job : Job V)
        → P job
        → (is_cron job.schedule_kind ≡ true
            → (next : Option Instant) → P (record job { next_run_at = next }))
        → Settles P (with_cron env croner now job)
    unfolding with_cron
    with_cron-Settles now job p q = elim (Bool-cases (is_cron job.schedule_kind)) [
      | inr f ↦ rw (f, with_cron) p
      | inl t ↦
          rw (t, with_cron)
            (elim (Option-cases job.cron_expr) [
              | inl none_given ↦ rw none_given p
              | inr (expr, e) ↦
                  rw e (set_next-Settles now job (parse croner expr job.timezone) (q t))
            ])
    ]
