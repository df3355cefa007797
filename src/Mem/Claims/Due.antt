-- ===== src/Mem/Claims/Due.antt =====
-- The due query of a tick (chronon-backend-mem/src/store/claims.rs).
use chronon.Base.{
  ℕ, ◌≤◌, ◌<◌, none, some, Bool, true, false, ◌||◌, List, [], ◌∷◌, map, String, ◌≡◌, refl, ◌⊎◌, inl,
  inr, Instant, arith, lookup, values, any, take, filter, sort_by, length, is_empty, eqb, All,
  Distinct-All, All-take, All-sort_by, length-take-le, any-sort_by, take_all, Bool-cases,
  is_none_or, ltb, ◌==◌, sym, subst,
}
use chronon.Model.Error.{Result, ok}
use chronon.Model.Job.{Job, is_manual, is_run_once}
use chronon.Mem.State.{Store}
use chronon.Mem.Jobs.Index.{IsIndexed}
use chronon.Mem.Claims.{is_due, in_partitions, earliest_first, find_due_job_ids_in_partitions}

module _ {V : Type 0} (utc : Instant) (parts : List ℕ) (until : Instant) where
  -- An enabled job with a fire at or before `until`, in a partition that the caller owns, under no
  -- live tick claim; no manual job and no run-once job that has been enqueued.
  pub record IsDue (job : Job V) : Type 0 where
    pub is_enabled : job.enabled ≡ true
    pub not_manual : is_manual job.schedule_kind ≡ false
    pub owned : in_partitions parts job.partition_hash ≡ true
    pub fire : (t : Instant) × (job.next_run_at ≡ some t) × (t ≤ until)
    pub unclaimed : is_none_or (λ u. ltb u utc) job.claim_lease_until ≡ true
    pub not_completed : (is_run_once job.schedule_kind ≡ false) ⊎ (job.run_once_completed_at ≡ none)

  IsDue-of_test : (job : Job V) → is_due utc parts until job ≡ true → IsDue job
  unfolding is_due
  IsDue-of_test job h = record {
    is_enabled = ground arith;
    not_manual = ground arith;
    owned = ground arith;
    fire = ground arith;
    unclaimed = ground arith;
    not_completed = ground arith;
  }

  test_of_IsDue : (job : Job V) → IsDue job → is_due utc parts until job ≡ true
  unfolding is_due
  test_of_IsDue job d =
      ground (arith, d.is_enabled, d.not_manual, d.owned, d.fire, d.unclaimed, d.not_completed)

module _ {V : Type 0} where
  values-All :
      (P : Job V → Type 0) (m : List (String × Job V)) → All (λ e. P e.1) m → All P (values m)
  values-All P [] h = tt
  values-All P (e ∷ m) h = (h.0, values-All P m h.1)

  ids-All :
      (P : String → Type 0) (js : List (Job V))
      → All (λ j. P j.job_id) js
      → All P (map (λ (j : Job V). j.job_id) js)
  ids-All P [] h = tt
  ids-All P (j ∷ js) h = (h.0, ids-All P js h.1)

  length-ids : (js : List (Job V)) → length (map (λ (j : Job V). j.job_id) js) ≡ length js
  length-ids [] = refl
  length-ids (j ∷ js) = ground (arith, length-ids js)

  filter-All :
      (test : Job V → Bool) (P : Job V → Type 0) (js : List (Job V))
      → All P js
      → All (λ j. P j × (test j ≡ true)) (filter test js)
  filter-All test P [] h = tt
  filter-All test P (j ∷ js) h = elim (Bool-cases (test j)) [
    | inl t ↦ rw (t) ((h.0, t), filter-All test P js h.1)
    | inr f ↦ rw (f) (filter-All test P js h.1)
  ]

  All-ap :
      (P Q : Job V → Type 0) (js : List (Job V)) → ((j : Job V) → P j → Q j) → All P js → All Q js
  All-ap P Q [] f h = tt
  All-ap P Q (j ∷ js) f h = (f j h.0, All-ap P Q js f h.1)

  no_parts :
      (parts : List ℕ) (job : Job V)
      → is_empty parts ≡ true
      → in_partitions parts job.partition_hash ≡ false
  no_parts [] job h = ground arith
  no_parts (p ∷ ps) job h = ground arith

  -- Each row is stored under its id.
  entries_stored :
      (s : Store V) (m : List (String × Job V))
      → IsIndexed s
      → All (λ e. lookup e.0 s.jobs ≡ some e.1) m
      → All (λ e. lookup e.1.job_id s.jobs ≡ some e.1) m
  entries_stored s [] w h = tt
  entries_stored s (e ∷ m) w h = (ground (arith, h.0, w.keyed e.0 e.1), entries_stored s m w h.1)

  rows_stored :
      (s : Store V) → IsIndexed s → All (λ j. lookup j.job_id s.jobs ≡ some j) (values s.jobs)
  rows_stored s w =
      values-All (λ j. lookup j.job_id s.jobs ≡ some j) s.jobs
        (entries_stored s s.jobs w (Distinct-All s.jobs w.distinct))

module _ {V : Type 0} (utc : Instant) (parts : List ℕ) (until : Instant) (limit : ℕ)
    (s : Store V) where
  abbrev pub StoredDue : String → Type 0
  StoredDue id = (job : Job V) × (lookup id s.jobs ≡ some job) × IsDue utc parts until job

  abbrev pub FindsDue : Result (List String) × Store V → Type 0
  FindsDue r = (ids : List String) × (r ≡ (ok ids, s)) × (length ids ≤ limit) × All StoredDue ids

  abbrev due_jobs : List (Job V)
  due_jobs =
      take limit (sort_by (earliest_first until) (filter (is_due utc parts until) (values s.jobs)))

  due_jobs-All : IsIndexed s → All (λ j. StoredDue j.job_id) due_jobs
  due_jobs-All w =
      let sorted =
        sort_by (earliest_first until) (filter (is_due utc parts until) (values s.jobs)) in
      let Q : Job V → Type 0 = λ j. StoredDue j.job_id in
      All-take Q limit sorted (
        All-sort_by Q (earliest_first until) (filter (is_due utc parts until) (values s.jobs)) (
          All-ap (λ j. (lookup j.job_id s.jobs ≡ some j) × (is_due utc parts until j ≡ true)) Q
            (filter (is_due utc parts until) (values s.jobs))
            (λ j h. (j, h.0, IsDue-of_test utc parts until j h.1))
            (filter-All (is_due utc parts until) (λ j. lookup j.job_id s.jobs ≡ some j)
              (values s.jobs) (rows_stored s w))))

  -- Where rows and index agree, the due query answers at most `limit` ids and changes nothing, and
  -- each of them is the id of a stored job that is due.
  pub find_due_job_ids-FindsDue :
      IsIndexed s → FindsDue (find_due_job_ids_in_partitions utc parts until limit s)
  unfolding find_due_job_ids_in_partitions
  find_due_job_ids-FindsDue w = elim (Bool-cases (is_empty parts || eqb limit 0)) [
    | inl t ↦ rw (t, find_due_job_ids_in_partitions) ([], refl, omega arith, tt)
    | inr f ↦
        rw (f, find_due_job_ids_in_partitions)
          (
            map (λ (j : Job V). j.job_id) due_jobs,
            refl,
            omega (
              arith,
              length-ids due_jobs,
              length-take-le limit (
                  sort_by (earliest_first until) (filter (is_due utc parts until) (values s.jobs))),
            ),
            ids-All StoredDue due_jobs (due_jobs-All w),
          )
  ]

  any-ids :
      (test : String → Bool) (js : List (Job V))
      → any test (map (λ (j : Job V). j.job_id) js) ≡ any (λ j. test j.job_id) js
  any-ids test [] = refl
  any-ids test (j ∷ js) = ground (arith, any-ids test js)

  any_found :
      (id : String) (job : Job V) (m : List (String × Job V))
      → lookup id m ≡ some job
      → job.job_id ≡ id
      → is_due utc parts until job ≡ true
      → any (λ j. j.job_id == id) (filter (is_due utc parts until) (values m)) ≡ true
  unfolding lookup
  any_found id job [] e k d = cc
  any_found id job ((i, j) ∷ m) e k d = ground (arith, any_found id job m)

  asked :
      (job : Job V)
      → in_partitions parts job.partition_hash ≡ true
      → 0 < limit
      → (is_empty parts || eqb limit 0) ≡ false
  asked job o pos = elim (Bool-cases (is_empty parts)) [
    | inl t ↦ ground (arith, no_parts parts job t)
    | inr f ↦ ground arith
  ]

  listed :
      (id : String) (job : Job V)
      → IsIndexed s
      → length (map (λ (j : Job V). j.job_id) due_jobs) < limit
      → lookup id s.jobs ≡ some job
      → IsDue utc parts until job
      → any (λ k. k == id) (map (λ (j : Job V). j.job_id) due_jobs) ≡ true
  listed id job w few e d =
      let fit = filter (is_due utc parts until) (values s.jobs) in
      let test : Job V → Bool = λ j. j.job_id == id in
      rw
        (
          any-ids (λ k. k == id) due_jobs,
          take_all limit (sort_by (earliest_first until) fit) (omega (arith, length-ids due_jobs)),
          any-sort_by test (earliest_first until) fit,
        )
        (any_found id job s.jobs e (w.keyed id job e) (test_of_IsDue utc parts until job d))

  -- Where rows and index agree, a due query that answers fewer than `limit` ids answers the id of
  -- every stored job that is due.
  pub find_due_job_ids_complete :
      (ids : List String) (id : String) (job : Job V)
      → IsIndexed s
      → find_due_job_ids_in_partitions utc parts until limit s ≡ (ok ids, s)
      → length ids < limit
      → lookup id s.jobs ≡ some job
      → IsDue utc parts until job
      → any (λ k. k == id) ids ≡ true
  unfolding find_due_job_ids_in_partitions
  find_due_job_ids_complete ids id job w r few e d =
      let found : find_due_job_ids_in_partitions utc parts until limit s
          ≡ (ok (map (λ (j : Job V). j.job_id) due_jobs), s) =
        rw (asked job d.owned (omega arith), find_due_job_ids_in_partitions) in
      let same : map (λ (j : Job V). j.job_id) due_jobs ≡ ids = cc in
      subst (λ l. any (λ k. k == id) l ≡ true) same
        (listed id job w (subst (λ l. length l < limit) (sym same) few) e d)
