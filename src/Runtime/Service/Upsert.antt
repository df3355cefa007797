-- ===== src/Runtime/Service/Upsert.antt =====
-- What an upsert through the service leaves in the in-memory store
-- (chronon-runtime/src/coordinator_service.rs).
use chronon.Base.{
  ℕ, Option, none, some, true, false, [], ◌∷◌, ◌++◌, String, ◌≡◌, refl, sym, subst, ◌≢◌, ◌⊎◌, inl,
  inr, Instant, ℤ, pos, eqb_ℤ, arith, lookup, insert, get_or, Option-cases, Bool-cases, ◌==◌,
}
use chronon.Model.Error.{
  Result-cases, Result, ok, err, ChrononError, job_name_taken, script_mismatch, try_ok,
}
use chronon.Model.Job.{Job}
use chronon.Mem.State.{Store}
use chronon.Mem.Port.{mem_store}
use chronon.Mem.Jobs
use chronon.Mem.Jobs.{get_job, get_job_by_name}
use chronon.Mem.Jobs.Index.{IsIndexed}
use chronon.Mem.Jobs.Contract.{upsert_job-Upserts}
use chronon.Mem.Coordinator.{append_revision}
use chronon.Scheduler.Cron.{Croner}
use chronon.Runtime.Service.{
  new_revision, append_snapshot, append_and_store, store_noted, store_new, store_over,
  store_prepared, prepare, upsert_job,
}

module _ {V : Type 0} (to_value : Job V → Result V) (utc : ℕ → Instant) (revision_id : String)
    (s : Store V) (job : Job V) where
  -- The store with one more revision of the job.
  abbrev pub noted : ℤ → V → Store V
  noted number v = record s {
    revisions =
        insert job.job_id
          (get_or (lookup job.job_id s.revisions) []
            ++ new_revision revision_id (utc 3) job.job_id number job.actor_json v ∷ [])
          s.revisions;
  }

  -- The job is found by its id and by its name.
  abbrev pub IsStored : Store V → Type 0
  IsStored t =
      (get_job job.job_id t ≡ (ok (some job), t))
      × (get_job_by_name job.job_name t ≡ (ok (some job), t))

  -- A row with another id bears the name, and the call is refused for that.
  abbrev pub IsTaken : Result (Unit {0}) × Store V → Store V → Type 0
  IsTaken r t =
      (i : String) × (holder : Job V) × (lookup i s.jobs ≡ some holder)
      × (holder.job_name ≡ job.job_name)
      × (i ≢ job.job_id)
      × (r ≡ (err (job_name_taken job.job_name i), t))

  -- The outcome of a write of the row after the revision `number` was noted.
  abbrev pub Notes : ℤ → Result (Unit {0}) × Store V → Type 0
  Notes number r =
      ((e : ChrononError) × (to_value job ≡ err e) × (r ≡ (err e, s)))
      ⊎ ((v : V) × (to_value job ≡ ok v)
          × (((t : Store V) × (r ≡ (ok tt, t))
                × IsStored t
                × (t.revisions ≡ (noted number v).revisions))
              ⊎ IsTaken r (noted number v)))

  noted-IsIndexed : (number : ℤ) (v : V) → IsIndexed s → IsIndexed (noted number v)
  noted-IsIndexed number v w = record {
    distinct = w.distinct;
    keyed = w.keyed;
    named = w.named;
    indexed = w.indexed;
  }

  snapshot_noted :
      (number : ℤ) (v : V)
      → to_value job ≡ ok v
      → append_snapshot (mem_store V) to_value utc revision_id job number s
        ≡ (ok tt, noted number v)
  unfolding append_snapshot append_revision new_revision
  snapshot_noted number v q = rw (q, append_snapshot)

  noted_then_stored :
      (number : ℤ) (v : V)
      → to_value job ≡ ok v
      → append_and_store (mem_store V) to_value utc revision_id job number s
        ≡ Jobs.upsert_job job (noted number v)
  unfolding append_and_store store_noted
  noted_then_stored number v q =
      subst
        (λ r.
          store_noted (mem_store V) to_value utc job r.0 r.1 ≡ Jobs.upsert_job job (noted number v))
        (sym (snapshot_noted number v q)) refl

  append_and_store-Notes :
      (number : ℤ)
      → IsIndexed s
      → Notes number (append_and_store (mem_store V) to_value utc revision_id job number s)
  unfolding append_and_store append_snapshot store_noted
  append_and_store-Notes number w = elim (Result-cases (to_value job)) [
    | inr (e, q) ↦ inl (e, q, rw (q, append_and_store, append_snapshot))
    | inl (v, q) ↦
        subst (Notes number) (sym (noted_then_stored number v q))
          (elim (upsert_job-Upserts job (noted number v) (noted-IsIndexed number v w)) [
            | inl (i, holder, at, same, other, o) ↦ inr (v, q, inr (i, holder, at, same, other, o))
            | inr (t, o, _, g, h, _, _, revs) ↦ inr (v, q, inl (t, o, (g, h), revs))
          ])
  ]

  -- Why a call is refused that leaves the store as it is.
  abbrev pub IsRefused : ChrononError → Type 0
  IsRefused e =
      (to_value job ≡ err e)
      ⊎ IsTaken (err e, s) s
      ⊎ ((old : Job V) × (lookup job.job_id s.jobs ≡ some old)
          × (old.script_name ≢ job.script_name)
          × (e ≡ script_mismatch old.script_name job.script_name job.job_name))

  -- The revisions after a call that stored the job: one more for a new job, numbered 1, and for a job
  -- whose revision number changed; else as they were.
  abbrev pub IsHistory : Store V → Type 0
  IsHistory t =
      ((lookup job.job_id s.jobs ≡ none)
        × (v : V) × (to_value job ≡ ok v)
        × (t.revisions ≡ (noted (pos 1) v).revisions))
      ⊎ ((old : Job V) × (lookup job.job_id s.jobs ≡ some old)
          × (old.script_name ≡ job.script_name)
          × (((eqb_ℤ old.current_revision job.current_revision ≡ true)
                × (t.revisions ≡ s.revisions))
              ⊎ ((eqb_ℤ old.current_revision job.current_revision ≡ false)
                  × (v : V) × (to_value job ≡ ok v)
                  × (t.revisions ≡ (noted job.current_revision v).revisions))))

  -- The outcomes: refused with nothing changed; stored; or refused, for the name, with a revision
  -- left behind, which is the case only for a job that was there with another revision number.
  abbrev pub Serves : Result (Unit {0}) × Store V → Type 0
  Serves r =
      ((e : ChrononError) × IsRefused e × (r ≡ (err e, s)))
      ⊎ ((t : Store V) × (r ≡ (ok tt, t)) × IsStored t × IsHistory t)
      ⊎ ((old : Job V) × (lookup job.job_id s.jobs ≡ some old)
          × (eqb_ℤ old.current_revision job.current_revision ≡ false)
          × (v : V) × IsTaken r (noted job.current_revision v))

  -- What follows the search for the name of a new job.
  abbrev after_search : Result (Option (Job V)) × Store V → Result (Unit {0}) × Store V
  after_search r =
      try_ok r.0 (λ holder. store_new (mem_store V) to_value utc revision_id job holder) r.1

  free-Serves :
      IsIndexed s
      → lookup job.job_id s.jobs ≡ none
      → lookup job.job_name s.jobs_by_name ≡ none
      → Serves (append_and_store (mem_store V) to_value utc revision_id job (pos 1) s)
  free-Serves w e free = elim (append_and_store-Notes (pos 1) w) [
    | inl (x, q, o) ↦ inl (x, inl q, o)
    | inr (v, q, inl (t, o, g, revs)) ↦ inr (inl (t, o, g, inl (e, v, q, revs)))
    | inr (v, q, inr (i, holder, at, name, other, o)) ↦ absurd (cc (w.named i holder at))
  ]

  new-Serves :
      IsIndexed s
      → lookup job.job_id s.jobs ≡ none
      → Serves (store_over (mem_store V) to_value utc revision_id job none s)
  unfolding store_over store_new get_job_by_name get_job
  new-Serves w e = elim (Option-cases (lookup job.job_name s.jobs_by_name)) [
    | inl free ↦
        let nobody : get_job_by_name job.job_name s ≡ (ok none, s) = rw (free, get_job_by_name) in
        subst (λ r. Serves (after_search r)) (sym nobody) (free-Serves w e free)
    | inr (i, taken) ↦
        let (holder, at, name) = w.indexed job.job_name i taken in
        let found : get_job_by_name job.job_name s ≡ (ok (some holder), s) =
          rw (taken, get_job_by_name) (rw (at)) in
        let keyed : holder.job_id ≡ i = w.keyed i holder at in
        subst (λ r. Serves (after_search r)) (sym found)
          (inl (
            job_name_taken job.job_name holder.job_id,
            inr (inl (holder.job_id, holder, ground arith, name, ground arith, refl)),
            refl,
          ))
  ]

  old-Serves :
      (old : Job V)
      → IsIndexed s
      → lookup job.job_id s.jobs ≡ some old
      → Serves (store_over (mem_store V) to_value utc revision_id job (some old) s)
  unfolding store_over
  old-Serves old w e = elim (Bool-cases (old.script_name == job.script_name)) [
    | inr differ ↦ inl (
      script_mismatch old.script_name job.script_name job.job_name,
      inr (inr (old, e, ground arith, refl)),
      rw (differ, store_over),
    )
    | inl same ↦ elim (Bool-cases (eqb_ℤ old.current_revision job.current_revision)) [
      | inl current ↦
          let stores : store_over (mem_store V) to_value utc revision_id job (some old) s
              ≡ Jobs.upsert_job job s =
            rw (same, store_over) (rw (current)) in
          subst Serves (sym stores) (elim (upsert_job-Upserts job s w) [
            | inl (i, holder, at, name, other, o) ↦
                inl (job_name_taken job.job_name i, inr (inl (i, holder, at, name, other, refl)), o)
            | inr (t, o, _, g, h, _, _, revs) ↦
                inr (inl (t, o, (g, h), inr (old, e, ground arith, inl (current, revs))))
          ])
      | inr moved ↦
          let notes : store_over (mem_store V) to_value utc revision_id job (some old) s
              ≡ append_and_store (mem_store V) to_value utc revision_id job job.current_revision s =
            rw (same, store_over) (rw (moved)) in
          subst Serves (sym notes) (elim (append_and_store-Notes job.current_revision w) [
            | inl (x, q, o) ↦ inl (x, inl q, o)
            | inr (v, q, inl (t, o, g, revs)) ↦
                inr (inl (t, o, g, inr (old, e, ground arith, inr (moved, v, q, revs))))
            | inr (v, q, inr taken) ↦ inr (inr (old, e, moved, v, taken))
          ])
    ]
  ]

  prepared-Serves :
      IsIndexed s → Serves (store_prepared (mem_store V) to_value utc revision_id job s)
  unfolding store_prepared get_job
  prepared-Serves w = elim (Option-cases (lookup job.job_id s.jobs)) [
    | inl e ↦
        subst (λ o. Serves (store_over (mem_store V) to_value utc revision_id job o s)) (sym e)
          (new-Serves w e)
    | inr (old, e) ↦
        subst (λ o. Serves (store_over (mem_store V) to_value utc revision_id job o s)) (sym e)
          (old-Serves old w e)
  ]

  -- Where rows and index agree and the job's schedule is accepted, an upsert through the service does
  -- one of these. It refuses, because the job is no JSON value, because a row with another id bears
  -- the name, or because the stored job runs another script, and changes nothing. It stores the job,
  -- which is then found by id and by name, and notes a revision: number 1 for a new job, the given
  -- one for a job whose revision number changed, none else. Or it refuses a job that was stored with
  -- another revision number, because a row with another id bears the new name, and leaves the
  -- revision behind.
  pub upsert_job-Serves :
      {C Tz : Type 0}
      → (croner : Croner C Tz) (partition_hash : String → ℤ) (given : Job V) → IsIndexed s
      → prepare (mem_store V) croner partition_hash to_value utc given ≡ ok job
      → Serves (upsert_job (mem_store V) croner partition_hash to_value utc revision_id given s)
  unfolding upsert_job
  upsert_job-Serves croner partition_hash given w accepted =
      rw (accepted, upsert_job) (prepared-Serves w)
