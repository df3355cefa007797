-- ===== src/Http/Redacted.antt =====
-- What the list of revisions hides: theorems on chronon-axum/src/handlers.rs.
use chronon.Base.{
  differ, Option, none, some, String, Instant, List, [], ◌∷◌, map, All, lookup, insert, ◌≡◌, ◌≢◌,
  refl, ◌∙◌, lookup-insert_self, lookup-insert_ne, Option-cases, inl, inr, text_discrete, get_or,
}
use chronon.Model.Error.{Result, ok, err, flatten_ok, ChrononError, job_not_found}
use chronon.Model.Job.{Job}
use chronon.Model.Coordination.{JobRevision}
use chronon.Port.{SchedulerStore}
use chronon.Http.Response.{
  Answer, StatusCode, chronon_err, refuse, api_err, chronon_status, to_string,
}
use chronon.Sanitize.{safe_message}
use chronon.Http.Revisions.{
  Objects, RevisionResponse, redact_revision_snapshot, revision_response, answer_revisions,
  answer_found, get_job_revisions,
}

params_is_other : ◌≢◌ {A = String} "params_json" "actor_json"
unfolding text_discrete
params_is_other = differ "params_json" "actor_json" refl

module _ {V : Type 0} (objects : Objects V) where
  -- Null for the actor and for the parameters, where there are members.
  abbrev pub ShowsNulls : Option (List (String × V)) → Type 0
  ShowsNulls none = Unit {0}
  ShowsNulls (some members) =
      (lookup "actor_json" members ≡ some objects.null)
      × (lookup "params_json" members ≡ some objects.null)

  abbrev pub IsRedacted : RevisionResponse V → Type 0
  IsRedacted response =
      (response.changed_by_actor_json ≡ objects.null)
      × ShowsNulls (objects.as_object response.snapshot_json)

  -- An object that is made of members shows what they say of each name.
  abbrev pub IsObjects : Type 0
  IsObjects =
      (members seen : List (String × V)) (name : String)
      → objects.as_object (objects.object members) ≡ some seen
      → lookup name seen ≡ lookup name members

  abbrev redacted : List (String × V) → List (String × V)
  redacted obj = insert "params_json" objects.null (insert "actor_json" objects.null obj)

  redacted-ShowsNulls : (obj : List (String × V)) → ShowsNulls (some (redacted obj))
  redacted-ShowsNulls obj = (
    lookup-insert_ne "params_json" "actor_json" objects.null (insert "actor_json" objects.null obj)
          params_is_other
        ∙ lookup-insert_self "actor_json" objects.null obj,
    lookup-insert_self "params_json" objects.null (insert "actor_json" objects.null obj),
  )

  object-ShowsNulls :
      (obj : List (String × V))
      → IsObjects
      → ShowsNulls (objects.as_object (objects.object (redacted obj)))
  object-ShowsNulls obj law =
      elim (Option-cases (objects.as_object (objects.object (redacted obj)))) [
        | inl plain ↦ rw plain tt
        | inr (seen, e) ↦ rw e (
          law (redacted obj) seen "actor_json" e ∙ (redacted-ShowsNulls obj).0,
          law (redacted obj) seen "params_json" e ∙ (redacted-ShowsNulls obj).1,
        )
      ]

  snapshot-ShowsNulls :
      (snapshot : V)
      → IsObjects
      → ShowsNulls (objects.as_object (redact_revision_snapshot objects snapshot))
  unfolding redact_revision_snapshot
  snapshot-ShowsNulls snapshot law = elim (Option-cases (objects.as_object snapshot)) [
    | inl plain ↦ rw (plain, redact_revision_snapshot) rw plain tt
    | inr (obj, e) ↦ rw (e, redact_revision_snapshot) (object-ShowsNulls obj law)
  ]

  map-IsRedacted :
      (rfc3339 : Instant → String) (revisions : List (JobRevision V))
      → IsObjects
      → All IsRedacted (map (revision_response objects rfc3339) revisions)
  map-IsRedacted rfc3339 [] law = tt
  map-IsRedacted rfc3339 (r ∷ rs) law =
      ((refl, snapshot-ShowsNulls r.snapshot_json law), map-IsRedacted rfc3339 rs law)

  module _ {S : Type 0} (db : SchedulerStore V S) (rfc3339 : Instant → String) where
    -- What an answer shows, if there is one.
    abbrev pub shown : Option (Answer (List (RevisionResponse V))) → List (RevisionResponse V)
    shown none = []
    shown (some answer) = get_or answer.1.data_field []

    refused-shown : (code : StatusCode) (message : String) → shown (refuse code message) ≡ []
    unfolding refuse api_err
    refused-shown code message = elim (Option-cases (safe_message message)) [
      | inl e ↦ rw (e, api_err) refl
      | inr (clean, e) ↦ rw (e, api_err) refl
    ]

    chronon_err-IsRedacted : (e : ChrononError) → All IsRedacted (shown (chronon_err e))
    unfolding chronon_err
    chronon_err-IsRedacted e = rw (refused-shown (chronon_status e) (to_string e)) tt

    answer-IsRedacted :
        (r : Result (List (JobRevision V)))
        → IsObjects
        → All IsRedacted (shown (answer_revisions objects rfc3339 r))
    answer-IsRedacted (ok revisions) law = map-IsRedacted rfc3339 revisions law
    answer-IsRedacted (err e) law = chronon_err-IsRedacted e

    found-IsRedacted :
        (utc : Instant) (job_id : String) (o : Option (Job V)) (s : S)
        → IsObjects
        → All IsRedacted (shown (answer_found objects db rfc3339 utc job_id o s).0)
    unfolding answer_found
    found-IsRedacted utc job_id none s law = chronon_err-IsRedacted (job_not_found job_id)
    found-IsRedacted utc job_id (some job) s law =
        answer-IsRedacted (db.list_revisions utc job_id s).0 law

    -- Whatever the store answers, no revision that the route shows has an actor, and none has a
    -- snapshot with an actor or parameters: they are null in each snapshot that is an object; provided
    -- that an object made of members shows what they say of each name.
    pub get_job_revisions-IsRedacted :
        (utc : Instant) (job_id : String) (s : S)
        → IsObjects
        → All IsRedacted (shown (get_job_revisions objects db rfc3339 utc job_id s).0)
    unfolding get_job_revisions
    get_job_revisions-IsRedacted utc job_id s law =
        found-IsRedacted utc job_id (flatten_ok (db.get_job utc job_id s).0)
          (db.get_job utc job_id s).1 law
