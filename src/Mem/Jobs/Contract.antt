-- ===== src/Mem/Jobs/Contract.antt =====
-- What a caller sees of an upsert and of a delete (chronon-backend-mem/src/store/jobs.rs).
use chronon.Base.{
  none, some, true, false, String, ◌≡◌, refl, ◌≢◌, ◌⊎◌, inl, inr, arith, lookup, lookup-remove,
  lookup-insert_self, lookup-insert_ne, lookup-remove_self, Option-cases, remove,
}
use chronon.Model.Error.{ok, err, job_name_taken}
use chronon.Model.Job.{Job}
use chronon.Mem.State.{Store}
use chronon.Mem.Jobs.{
  put_job, upsert_job, delete_job, remove_job, get_job, get_job_by_name, drop_old_name,
}
use chronon.Mem.Jobs.Index.{IsIndexed, write_job-outcome}

module _ {V : Type 0} (job : Job V) (s : Store V) where
  -- The two outcomes of an upsert.
  abbrev pub Upserts : Type 0
  Upserts =
      ((i : String) × (holder : Job V) × (lookup i s.jobs ≡ some holder)
        × (holder.job_name ≡ job.job_name)
        × (i ≢ job.job_id)
        × (upsert_job job s ≡ (err (job_name_taken job.job_name i), s)))
      ⊎ ((t : Store V) × (upsert_job job s ≡ (ok tt, t))
          × ¬ (
              (i : String) × (j : Job V) × (lookup i s.jobs ≡ some j)
              × (j.job_name ≡ job.job_name)
              × (i ≢ job.job_id))
          × (get_job job.job_id t ≡ (ok (some job), t))
          × (get_job_by_name job.job_name t ≡ (ok (some job), t))
          × ((i : String) → job.job_id ≢ i → lookup i t.jobs ≡ lookup i s.jobs)
          × (t.runs ≡ s.runs)
          × (t.revisions ≡ s.revisions))

  found_by_name : get_job_by_name job.job_name (put_job job s) ≡ (ok (some job), put_job job s)
  unfolding get_job_by_name get_job put_job
  found_by_name =
      rw
        (
          lookup-insert_self job.job_name job.job_id
              (drop_old_name (lookup job.job_id s.jobs) job.job_name s.jobs_by_name),
          get_job_by_name,
        )
        (rw (lookup-insert_self job.job_id job s.jobs))

  -- Where rows and index agree, an upsert is refused exactly for a name that a row with another id
  -- bears, and then changes nothing; otherwise the row is afterwards found by its id and by its
  -- name, and every other row, the runs and the revisions are as before.
  pub upsert_job-Upserts : IsIndexed s → Upserts
  unfolding upsert_job put_job get_job
  upsert_job-Upserts w = elim (write_job-outcome job s) [
    | inl (f, e) ↦ inr (
      put_job job s,
      e,
      (λ (i, j, h, n, other). ground (arith, w.named i j h)),
      rw (lookup-insert_self job.job_id job s.jobs),
      found_by_name,
      (λ i h. lookup-insert_ne job.job_id i job s.jobs h),
      refl,
      refl,
    )
    | inr (i, at, other, e) ↦
        let r = w.indexed job.job_name i at in inl (i, r.0, r.1, r.2, other, e)
  ]

module _ {V : Type 0} (id : String) (s : Store V) where
  -- The two outcomes of a delete.
  abbrev pub Deletes : Type 0
  Deletes =
      ((lookup id s.jobs ≡ none) × (delete_job id s ≡ (ok false, s)))
      ⊎ ((job : Job V) × (t : Store V) × (lookup id s.jobs ≡ some job)
          × (delete_job id s ≡ (ok true, t))
          × (get_job id t ≡ (ok none, t))
          × (get_job_by_name job.job_name t ≡ (ok none, t))
          × ((i : String) → id ≢ i → lookup i t.jobs ≡ lookup i s.jobs)
          × ((n : String) → job.job_name ≢ n → lookup n t.jobs_by_name ≡ lookup n s.jobs_by_name)
          × (lookup id t.revisions ≡ none)
          × (t.runs ≡ s.runs))

  abbrev without : Job V → Store V
  without job = record s {
    jobs = remove id s.jobs;
    jobs_by_name = remove job.job_name s.jobs_by_name;
    revisions = remove id s.revisions;
  }

  -- A delete tells whether the job was there. Where it was, neither its id nor its name leads to a
  -- job afterwards and its revisions are gone; other rows, other names and the runs are as before.
  pub delete_job-Deletes : Deletes
  unfolding delete_job remove_job get_job get_job_by_name
  delete_job-Deletes = elim (Option-cases (lookup id s.jobs)) [
    | inl e ↦ inl (e, rw (e, remove_job, delete_job))
    | inr (job, e) ↦ inr (
      job,
      without job,
      e,
      rw (e, remove_job, delete_job),
      rw (lookup-remove_self id s.jobs),
      rw (lookup-remove_self job.job_name s.jobs_by_name, get_job_by_name),
      (λ i h. ground (arith, lookup-remove id i s.jobs)),
      (λ n h. ground (arith, lookup-remove job.job_name n s.jobs_by_name)),
      lookup-remove_self id s.revisions,
      refl,
    )
  ]
