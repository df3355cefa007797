-- ===== src/Http/Revisions.antt =====
-- chronon-axum/src/handlers.rs: `GET /jobs/{id}/revisions`.
use chronon.Base.{Option, none, some, String, ℤ, Instant, List, map, insert}
use chronon.Model.Error.{Result, ok, err, Io, ◌>>=◌, pure, flatten_ok, job_not_found}
use chronon.Model.Job.{Job}
use chronon.Model.Coordination.{JobRevision}
use chronon.Port.{SchedulerStore}
use chronon.Http.Response.{Answer, chronon_err, accept}

-- `as_object_mut`, and the value that has the members.
pub record Objects (V : Type 0) : Type 0 where
  pub null : V
  pub as_object : V → Option (List (String × V))
  pub object : List (String × V) → V

pub record RevisionResponse (V : Type 0) : Type 0 where
  pub revision_id : String
  pub revision_number : ℤ
  pub changed_at : String
  pub changed_by_actor_json : V
  pub snapshot_json : V

module _ {V : Type 0} (objects : Objects V) where
  unfoldable pub redact_revision_snapshot : V → V
  redact_revision_snapshot snapshot = elim (objects.as_object snapshot) [
    | none ↦ snapshot
    | some obj ↦
        objects.object (insert "params_json" objects.null (insert "actor_json" objects.null obj))
  ]

  abbrev pub revision_response : (Instant → String) → JobRevision V → RevisionResponse V
  revision_response rfc3339 r = record {
    revision_id = r.revision_id;
    revision_number = r.revision_number;
    changed_at = rfc3339 r.changed_at;
    changed_by_actor_json = objects.null;
    snapshot_json = redact_revision_snapshot r.snapshot_json;
  }

  abbrev pub answer_revisions :
      (Instant → String)
      → Result (List (JobRevision V))
      → Option (Answer (List (RevisionResponse V)))
  answer_revisions rfc3339 (ok revisions) = accept (map (revision_response rfc3339) revisions)
  answer_revisions rfc3339 (err e) = chronon_err e

module _ {V S : Type 0} (objects : Objects V) (db : SchedulerStore V S)
    (rfc3339 : Instant → String) where
  unfoldable pub answer_found :
      Instant → String → Option (Job V) → Io S (Option (Answer (List (RevisionResponse V))))
  unfolding chronon_err redact_revision_snapshot
  answer_found utc job_id none = pure (chronon_err (job_not_found job_id))
  answer_found utc job_id (some job) = do
    revisions ← db.list_revisions utc job_id
    pure (answer_revisions objects rfc3339 revisions)

  unfoldable pub get_job_revisions :
      Instant → String → Io S (Option (Answer (List (RevisionResponse V))))
  unfolding answer_found
  get_job_revisions utc job_id = do
    found ← db.get_job utc job_id
    answer_found utc job_id (flatten_ok found)
