-- ===== src/Http/Refusals.antt =====
-- Upsert requests that are refused: theorems on chronon-axum/src/handlers.rs.
use chronon.Base.{
  ℕ, Option, none, ◌⊎◌, some, Bool, true, false, String, ℤ, Instant, ◌≡◌, refl, inl, inr,
  Bool-cases, Option-cases, lookup,
}
use chronon.Model.Error.{Result, param_error, flatten_ok}
use chronon.Model.Job.{Job}
use chronon.Mem.Jobs
use chronon.Mem.Port.{mem_store}
use chronon.Mem.State.{Store}
use chronon.Http.Request.{UpsertJobRequest, JobResponse, validate}
use chronon.Http.Response.{Answer, bad_request, chronon_status, to_string, refuse, api_err}
use chronon.Sanitize.{safe_message}
use chronon.Http.Upsert.{
  Values, stop, with_actor, job_of_request, base_job, finish_upsert, post_upsert, unknown_script,
}
use chronon.Http.Outcomes.{privileged}
use chronon.Scheduler.Cron.{Croner}

module _ {V F C Tz : Type 0} (env : Values V F) (croner : Croner C Tz) where
  abbrev refusal : String
  refusal = to_string (param_error "external actor_json cannot use a System or ServiceUser actor")

  job_of_request-refuses :
      (now : Instant) (req : UpsertJobRequest V) (base : Job V) (actor : V)
      → req.actor_json ≡ some actor
      → env.is_null actor ≡ false
      → privileged env croner actor ≡ true
      → job_of_request env croner now req base ≡ stop bad_request refusal
  unfolding job_of_request with_actor validate chronon_status
  job_of_request-refuses now req base actor given filled high = rw (given, filled, high) refl

  by_name-reads : (job_name : String) (s : Store V) → (Jobs.get_job_by_name job_name s).1 ≡ s
  unfolding Jobs.get_job_by_name Jobs.get_job
  by_name-reads job_name s = elim (Option-cases (lookup job_name s.jobs_by_name)) [
    | inl missing ↦ rw (missing, Jobs.get_job_by_name) refl
    | inr (id, found) ↦ rw (found, Jobs.get_job_by_name) refl
  ]

  -- The answer 400 with the message.
  abbrev pub bad : String → Answer JobResponse
  bad message = (bad_request, record { success = false; data_field = none; error = some message })

  refused-bad :
      (message clean : String)
      → safe_message message ≡ some clean
      → refuse {A = JobResponse} bad_request message ≡ some (bad clean)
  unfolding refuse api_err
  refused-bad message clean e = rw (e, api_err) refl

  refused-none :
      (message : String)
      → safe_message message ≡ none
      → refuse {A = JobResponse} bad_request message ≡ none
  unfolding refuse api_err
  refused-none message e = rw (e, api_err) refl

  refusal-safe : safe_message refusal ≡ some refusal
  unfolding safe_message to_string
  refusal-safe = refl

  module _ (partition_hash : String → ℤ) (to_value : Job V → Result V) (contains : String → Bool)
      (rfc3339 : Instant → String) where
    -- What is answered: the refusal of the actor where the script is known. Where it is not, the
    -- message that says so, as it is rewritten, or nothing, as the rewriting of that message panics.
    abbrev pub IsRefusal : String → Option (Answer JobResponse) → Type 0
    IsRefusal script_name answer =
        ((contains script_name ≡ true) × (answer ≡ some (bad refusal)))
        ⊎ ((message : String) × (contains script_name ≡ false)
            × (safe_message (unknown_script script_name) ≡ some message)
            × (answer ≡ some (bad message)))
        ⊎ ((contains script_name ≡ false)
            × (safe_message (unknown_script script_name) ≡ none)
            × (answer ≡ none))

    -- A request to the upsert route with an actor that is not null and has the shape of a System or
    -- ServiceUser actor leaves the in-memory store as it was. Where its script is known, it is answered
    -- with 400 and a message that names the reason; where it is not, with 400 and the message that says
    -- so, as it is rewritten, or not at all, exactly if the rewriting of that message panics.
    pub post_upsert-refuses :
        (utc : ℕ → Instant) (job_id revision_id : String) (req : UpsertJobRequest V) (s : Store V)
        (actor : V)
        → req.actor_json ≡ some actor
        → env.is_null actor ≡ false
        → privileged env croner actor ≡ true
        → IsRefusal req.script_name
            (post_upsert env
              (mem_store V)
              croner
              partition_hash
              to_value
              contains
              rfc3339
              utc
              job_id
              revision_id
              req
              s).0
          × ((post_upsert env
                (mem_store V)
                croner
                partition_hash
                to_value
                contains
                rfc3339
                utc
                job_id
                revision_id
                req
                s).1
              ≡ s)
    unfolding post_upsert finish_upsert
    post_upsert-refuses utc job_id revision_id req s actor given filled high =
        elim (Bool-cases (contains req.script_name)) [
          | inr unknown ↦ elim (Option-cases (safe_message (unknown_script req.script_name))) [
            | inl e ↦
                rw (unknown, post_upsert)
                  (inr (inr (refl, e, refused-none (unknown_script req.script_name) e)), refl)
            | inr (message, e) ↦
                rw (unknown, post_upsert)
                  (
                    inr (
                        inl (
                          message,
                          refl,
                          e,
                          refused-bad (unknown_script req.script_name) message e,
                        )),
                    refl,
                  )
          ]
          | inl known ↦
              rw (known, post_upsert) rw
                (job_of_request-refuses (utc 2) req
                  (base_job env job_id (utc 1) req
                    (flatten_ok (Jobs.get_job_by_name req.job_name s).0))
                  actor given filled high)
                (inl (refl, refused-bad refusal refusal refusal-safe), by_name-reads req.job_name s)
        ]
