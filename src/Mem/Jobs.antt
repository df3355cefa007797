-- ===== src/Mem/Jobs.antt =====
-- chronon-backend-mem/src/store/mod.rs and jobs.rs: the job rows and their name index.
-- An argument `utc` is what `Utc::now()` reads inside the call.
pub mod Index
pub mod Contract
use chronon.Base.{
  Option, none, some, Bool, true, false, ◌&&◌, List, String, Instant, ite, lookup, insert, remove,
  values, filter, is_some_and, leb, text_discrete, if◌then◌else◌,
}
use chronon.Model.Error.{Result, ok, err, Io, job_not_found, job_name_taken}
use chronon.Model.Job.{Job}
use chronon.Mem.State.{Store}

module _ {V : Type 0} where
  -- The row that held the id gives its name up when it had another one.
  unfoldable pub drop_old_name :
      Option (Job V) → String → List (String × String) → List (String × String)
  drop_old_name none name index = index
  drop_old_name (some previous) name index =
      ite (text_discrete previous.job_name name) index (remove previous.job_name index)

  unfoldable pub put_job : Job V → Store V → Store V
  unfolding drop_old_name
  put_job job s = record s {
    jobs_by_name =
        insert job.job_name job.job_id
          (drop_old_name (lookup job.job_id s.jobs) job.job_name s.jobs_by_name);
    jobs = insert job.job_id job s.jobs;
  }

  unfoldable pub write_job : Job V → Io (Store V) (Result (Unit {0}))
  write_job job s = elim (lookup job.job_name s.jobs_by_name) [
    | none ↦ (ok tt, put_job job s)
    | some existing_job_id ↦
        ite (text_discrete existing_job_id job.job_id) (ok tt, put_job job s)
          (err (job_name_taken job.job_name existing_job_id), s)
  ]

  -- Under the locks of the jobs and of the names.
  abbrev pub remove_row : String → Job V → Store V → Store V
  remove_row job_id job s = record s {
    jobs = remove job_id s.jobs;
    jobs_by_name = remove job.job_name s.jobs_by_name;
  }

  -- Under the lock of the revisions, which is taken when the others are given up.
  abbrev pub remove_revisions : String → Store V → Store V
  remove_revisions job_id s = record s { revisions = remove job_id s.revisions }

  -- Both steps with no other call between them.
  unfoldable pub remove_job : String → Store V → Bool × Store V
  remove_job job_id s = elim (lookup job_id s.jobs) [
    | none ↦ (false, s)
    | some job ↦ (true, remove_revisions job_id (remove_row job_id job s))
  ]

  unfoldable pub mutate_job_at :
      String → Instant → (Job V → Job V) → Io (Store V) (Result (Unit {0}))
  mutate_job_at job_id now f s = elim (lookup job_id s.jobs) [
    | none ↦ (err (job_not_found job_id), s)
    | some job ↦
        (ok tt, record s { jobs = insert job_id (record (f job) { updated_at = now }) s.jobs })
  ]

  unfoldable pub mutate_job : Instant → String → (Job V → Job V) → Io (Store V) (Result (Unit {0}))
  unfolding mutate_job_at
  mutate_job utc job_id f = mutate_job_at job_id utc f

  unfoldable pub upsert_job : Job V → Io (Store V) (Result (Unit {0}))
  upsert_job job = write_job job

  unfoldable pub get_job : String → Io (Store V) (Result (Option (Job V)))
  get_job job_id s = (ok (lookup job_id s.jobs), s)

  -- The locks of the names and of the jobs, one after the other, with no other call between them.
  unfoldable pub get_job_by_name : String → Io (Store V) (Result (Option (Job V)))
  unfolding get_job
  get_job_by_name job_name s = elim (lookup job_name s.jobs_by_name) [
    | some job_id ↦ get_job job_id s
    | none ↦ (ok none, s)
  ]

  unfoldable pub list_jobs : Io (Store V) (Result (List (Job V)))
  list_jobs s = (ok (values s.jobs), s)

  unfoldable pub list_due_jobs : Instant → Io (Store V) (Result (List (Job V)))
  list_due_jobs before s = (
    ok (filter (λ j. j.enabled && is_some_and (λ t. leb t before) j.next_run_at) (values s.jobs)),
    s,
  )

  unfoldable pub delete_job : String → Io (Store V) (Result Bool)
  delete_job job_id s = let (removed, s') = remove_job job_id s in (ok removed, s')

  abbrev pub set_enabled : Bool → Job V → Job V
  set_enabled value j = record j { enabled = value }

  unfoldable pub pause_job : Instant → String → Io (Store V) (Result (Unit {0}))
  unfolding mutate_job
  pause_job utc job_id = mutate_job utc job_id (set_enabled false)

  unfoldable pub resume_job : Instant → String → Io (Store V) (Result (Unit {0}))
  unfolding mutate_job
  resume_job utc job_id = mutate_job utc job_id (set_enabled true)
