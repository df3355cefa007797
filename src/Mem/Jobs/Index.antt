-- ===== src/Mem/Jobs/Index.antt =====
-- The name index of the job rows (chronon-backend-mem/src/store/mod.rs and jobs.rs).
use chronon.Base.{
  Option, none, some, List, String, ◌≡◌, refl, ◌≢◌, ◌⊎◌, inl, inr, Instant, arith, lookup, insert,
  Distinct, insert-Distinct, remove-Distinct, lookup-insert, lookup-remove, text_discrete,
  Option-cases,
}
use chronon.Model.Error.{ok, err, job_name_taken}
use chronon.Model.Job.{Job}
use chronon.Mem.State.{Store, new}
use chronon.Mem.Jobs.{write_job, put_job, drop_old_name, remove_job, mutate_job_at}

module _ {V : Type 0} where
  -- Each id has one row, and the rows and the index say the same of each name and id.
  pub record IsIndexed (s : Store V) : Type 0 where
    pub distinct : Distinct s.jobs
    pub keyed : (i : String) (j : Job V) → lookup i s.jobs ≡ some j → j.job_id ≡ i
    pub named :
        (i : String) (j : Job V)
        → lookup i s.jobs ≡ some j
        → lookup j.job_name s.jobs_by_name ≡ some i
    pub indexed :
        (n i : String)
        → lookup n s.jobs_by_name ≡ some i
        → (j : Job V) × (lookup i s.jobs ≡ some j) × (j.job_name ≡ n)

  pub new-IsIndexed : IsIndexed (new V)
  unfolding new lookup
  new-IsIndexed = record {
    distinct = tt;
    keyed = λ i j h. cc;
    named = λ i j h. cc;
    indexed = λ n i h. cc;
  }

  module _ (job : Job V) (s : Store V) (w : IsIndexed s) where
    -- Dropping the old name loses no other row's name.
    old_name_kept :
        (o : Option (Job V)) (i : String) (j : Job V)
        → lookup job.job_id s.jobs ≡ o
        → job.job_id ≢ i
        → lookup i s.jobs ≡ some j
        → lookup j.job_name (drop_old_name o job.job_name s.jobs_by_name) ≡ some i
    unfolding drop_old_name
    old_name_kept none i j e ne h = w.named i j h
    old_name_kept (some p) i j e ne h = ground (
      arith,
      w.named i j h,
      w.named job.job_id p e,
      lookup-remove p.job_name j.job_name s.jobs_by_name,
    )

    -- What the shortened index still holds stands for a row with another id.
    old_name_dropped :
        (o : Option (Job V)) (n i : String)
        → lookup job.job_id s.jobs ≡ o
        → job.job_name ≢ n
        → lookup n (drop_old_name o job.job_name s.jobs_by_name) ≡ some i
        → (lookup n s.jobs_by_name ≡ some i) × (job.job_id ≢ i)
    unfolding drop_old_name
    old_name_dropped none n i e ne h = (h, λ same. let r = w.indexed n i h in ground (arith, r.1))
    old_name_dropped (some p) n i e ne h =
        let kept : lookup n s.jobs_by_name ≡ some i =
          ground (arith, lookup-remove p.job_name n s.jobs_by_name) in
        let r = w.indexed n i kept in
        let differs : p.job_name ≢ n =
          λ same. ground (arith, lookup-remove p.job_name n s.jobs_by_name) in
        (kept, λ same. ground (arith, r.1, r.2))

    abbrev index' : List (String × String)
    index' = drop_old_name (lookup job.job_id s.jobs) job.job_name s.jobs_by_name

    put_indexed :
        (n i : String)
        → lookup n (insert job.job_name job.job_id index') ≡ some i
        → (j : Job V) × (lookup i (insert job.job_id job s.jobs) ≡ some j) × (j.job_name ≡ n)
    put_indexed n i h = elim (text_discrete job.job_name n) [
      | yes same ↦ (
        job,
        ground (
          arith,
          lookup-insert job.job_name n job.job_id index',
          lookup-insert job.job_id i job s.jobs,
        ),
        same,
      )
      | no differs ↦
          let found : lookup n index' ≡ some i =
            ground (arith, lookup-insert job.job_name n job.job_id index') in
          let old = old_name_dropped (lookup job.job_id s.jobs) n i refl differs found in
          let r = w.indexed n i old.0 in
          (r.0, ground (arith, lookup-insert job.job_id i job s.jobs, r.1, old.1), r.2)
    ]

    pub put_job-IsIndexed :
        (lookup job.job_name s.jobs_by_name ≡ none)
          ⊎ (lookup job.job_name s.jobs_by_name ≡ some job.job_id)
        → IsIndexed (put_job job s)
    unfolding put_job
    put_job-IsIndexed f = record {
      distinct = insert-Distinct job.job_id job s.jobs w.distinct;
      keyed = λ i j h. ground (arith, lookup-insert job.job_id i job s.jobs, w.keyed i j);
      named = λ i j h. ground (
        arith,
        lookup-insert job.job_id i job s.jobs,
        w.named i j,
        old_name_kept (lookup job.job_id s.jobs) i j refl,
        lookup-insert job.job_name j.job_name job.job_id
            (drop_old_name (lookup job.job_id s.jobs) job.job_name s.jobs_by_name),
      );
      indexed = λ n i h. put_indexed n i h;
    }

  -- The name is free or the job's own.
  abbrev pub IsFree : Job V → Store V → Type 0
  IsFree job s =
      (lookup job.job_name s.jobs_by_name ≡ none)
      ⊎ (lookup job.job_name s.jobs_by_name ≡ some job.job_id)

  pub write_job-outcome :
      (job : Job V) (s : Store V)
      → (IsFree job s × (write_job job s ≡ (ok tt, put_job job s)))
        ⊎ ((i : String) × (lookup job.job_name s.jobs_by_name ≡ some i)
            × (i ≢ job.job_id)
            × (write_job job s ≡ (err (job_name_taken job.job_name i), s)))
  unfolding write_job
  write_job-outcome job s = elim (Option-cases (lookup job.job_name s.jobs_by_name)) [
    | inl e ↦ inl (inl e, rw (e, write_job))
    | inr (i, e) ↦ elim (text_discrete i job.job_id) [
      | yes same ↦ inl (inr (ground arith), rw (e, write_job) (ground arith))
      | no other ↦ inr (i, e, other, rw (e, write_job) (ground arith))
    ]
  ]

  -- Every write of a job row, refused or not, keeps the rows and the name index in agreement.
  pub write_job-IsIndexed :
      (job : Job V) (s : Store V) → IsIndexed s → IsIndexed (write_job job s).1
  write_job-IsIndexed job s w = elim (write_job-outcome job s) [
    | inl (f, e) ↦ rw e (put_job-IsIndexed job s w f)
    | inr (i, _, _, e) ↦ rw e w
  ]

  remove_found-IsIndexed :
      (id : String) (job : Job V) (s : Store V)
      → lookup id s.jobs ≡ some job
      → IsIndexed s
      → IsIndexed (remove_job id s).1
  unfolding remove_job
  remove_found-IsIndexed id job s e w =
      rw (e, remove_job)
        (record {
          distinct = remove-Distinct id s.jobs w.distinct;
          keyed = λ i j h. ground (arith, lookup-remove id i s.jobs, w.keyed i j);
          named = λ i j h. ground (
            arith,
            lookup-remove id i s.jobs,
            lookup-remove job.job_name j.job_name s.jobs_by_name,
            w.named i j,
            w.named id job e,
          );
          indexed = λ n i h.
              let found : lookup n s.jobs_by_name ≡ some i =
                ground (arith, lookup-remove job.job_name n s.jobs_by_name) in
              let differs : job.job_name ≢ n =
                λ same. ground (arith, lookup-remove job.job_name n s.jobs_by_name) in
              let r = w.indexed n i found in
              (r.0, ground (arith, lookup-remove id i s.jobs, r.1, r.2), r.2);
        })

  pub remove_job-IsIndexed :
      (id : String) (s : Store V) → IsIndexed s → IsIndexed (remove_job id s).1
  unfolding remove_job
  remove_job-IsIndexed id s w = elim (Option-cases (lookup id s.jobs)) [
    | inl e ↦ rw (e, remove_job) w
    | inr (job, e) ↦ remove_found-IsIndexed id job s e w
  ]

  -- A change of other fields than the id and the name keeps the index.
  abbrev pub KeepsName : (Job V → Job V) → Type 0
  KeepsName f = (j : Job V) → ((f j).job_id ≡ j.job_id) × ((f j).job_name ≡ j.job_name)

  abbrev pub restamped : Instant → (Job V → Job V) → Job V → Job V
  restamped now f job = record (f job) { updated_at = now }

  pub mutate_found-IsIndexed :
      (id : String) (now : Instant) (f : Job V → Job V) (job : Job V) (s : Store V)
      → lookup id s.jobs ≡ some job
      → KeepsName f
      → IsIndexed s
      → IsIndexed (record s { jobs = insert id (restamped now f job) s.jobs })
  mutate_found-IsIndexed id now f job s e k w = record {
    distinct = insert-Distinct id (restamped now f job) s.jobs w.distinct;
    keyed = λ i j h. ground (
      arith,
      lookup-insert id i (restamped now f job) s.jobs,
      w.keyed i j,
      w.keyed id job e,
      k job,
    );
    named = λ i j h. ground (
      arith,
      lookup-insert id i (restamped now f job) s.jobs,
      w.named i j,
      w.named id job e,
      k job,
    );
    indexed = λ n i h.
        let r = w.indexed n i h in
        elim (text_discrete id i) [
          | yes same ↦ (
            restamped now f job,
            ground (arith, lookup-insert id i (restamped now f job) s.jobs),
            ground (arith, r.1, r.2, k job),
          )
          | no other ↦
              (r.0, ground (arith, lookup-insert id i (restamped now f job) s.jobs, r.1), r.2)
        ];
  }

  pub mutate_job_at-IsIndexed :
      (id : String) (now : Instant) (f : Job V → Job V) (s : Store V)
      → KeepsName f
      → IsIndexed s
      → IsIndexed (mutate_job_at id now f s).1
  unfolding mutate_job_at
  mutate_job_at-IsIndexed id now f s k w = elim (Option-cases (lookup id s.jobs)) [
    | inl e ↦ rw (e, mutate_job_at) w
    | inr (job, e) ↦ rw (e, mutate_job_at) (mutate_found-IsIndexed id now f job s e k w)
  ]
