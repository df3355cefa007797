-- ===== src/Mem/Claims/Rows.antt =====
-- What a history of calls keeps of one job row (chronon-backend-mem/src/store/claims.rs).
use chronon.Base.{
  some, true, false, List, [], ◌∷◌, String, ◌≡◌, sym, subst, ◌≢◌, inl, inr, Instant, arith, All,
  lookup, insert, lookup-insert, lookup-remove, lookup-insert_ne, Option-cases, text_discrete,
}
use chronon.Model.Job.{Job}
use chronon.Mem.State.{Store}
use chronon.Mem.Jobs.{
  put_job, remove_job, mutate_job_at, upsert_job, delete_job, pause_job, resume_job, set_enabled,
}
use chronon.Mem.Jobs.Index.{write_job-outcome, restamped}
use chronon.Mem.Claims.{
  mark_run_once_completed, release_run_once_claim, release_job_tick_claim,
  persist_post_tick_job_state, complete_run_once, release_run_once, clear_tick_claim, set_post_tick,
}
use chronon.Mem.Claims.Outcomes.{
  once_claimed, try_claim_run_once-ClaimsOnce, tick_claimed, claim_job_for_tick-ClaimsTick,
  IsTickable, IsOpen,
}
use chronon.Mem.Claims.History.{
  JobCall, upserts, deletes, pauses, resumes, claims_once, completes_once, releases_once,
  claims_tick, releases_tick, persists, apply, run_calls,
}

module _ {V : Type 0} (id : String) (P : Job V → Type 0) where
  -- The job has a row, of which `P` holds.
  abbrev pub Row : Store V → Type 0
  Row s = (job : Job V) × (lookup id s.jobs ≡ some job) × P job

  abbrev pub KeepsRow : String → (Job V → Job V) → Type 0
  KeepsRow i f = i ≡ id → (job : Job V) → P job → P (f job)

  insert-Row :
      (s : Store V) (i : String) (f : Job V → Job V) (old : Job V)
      → lookup i s.jobs ≡ some old
      → (i ≡ id → P old → P (f old))
      → Row s
      → Row (record s { jobs = insert i (f old) s.jobs })
  insert-Row s i f old at keep (job, e, p) = elim (text_discrete i id) [
    | yes same ↦
        let same_job : job ≡ old = ground arith in
        (f old, ground (arith, lookup-insert i id (f old) s.jobs), keep same (subst P same_job p))
    | no other ↦ (job, ground (arith, lookup-insert i id (f old) s.jobs), p)
  ]

  mutate_job_at-Row :
      (s : Store V) (i : String) (now : Instant) (f : Job V → Job V)
      → KeepsRow i (restamped now f)
      → Row s
      → Row (mutate_job_at i now f s).1
  unfolding mutate_job_at
  mutate_job_at-Row s i now f keep r = elim (Option-cases (lookup i s.jobs)) [
    | inl e ↦ rw (e, mutate_job_at) r
    | inr (old, e) ↦
        rw (e, mutate_job_at) (insert-Row s i (restamped now f) old e (λ same. keep same old) r)
  ]

  upsert_job-Row : (s : Store V) (new : Job V) → new.job_id ≢ id → Row s → Row (upsert_job new s).1
  unfolding upsert_job put_job
  upsert_job-Row s new other (job, e, p) = elim (write_job-outcome new s) [
    | inl (_, o) ↦
        subst (λ r. Row r.1) (sym o)
          (job, ground (arith, lookup-insert_ne new.job_id id new s.jobs other), p)
    | inr (_, _, _, o) ↦ subst (λ r. Row r.1) (sym o) (job, e, p)
  ]

  delete_job-Row : (s : Store V) (i : String) → i ≢ id → Row s → Row (delete_job i s).1
  unfolding delete_job remove_job
  delete_job-Row s i other (job, e, p) = elim (Option-cases (lookup i s.jobs)) [
    | inl o ↦ rw (o, remove_job, delete_job) (job, e, p)
    | inr (old, o) ↦
        rw (o, remove_job, delete_job) (job, ground (arith, lookup-remove i id s.jobs), p)
  ]

  -- What a call must keep of the row.
  abbrev pub Keeps : JobCall V → Type 0
  Keeps (upserts new) = new.job_id ≢ id
  Keeps (deletes i) = i ≢ id
  Keeps (pauses utc i) = KeepsRow i (restamped utc (set_enabled false))
  Keeps (resumes utc i) = KeepsRow i (restamped utc (set_enabled true))
  Keeps (claims_once i by now ttl) =
      i ≡ id
      → (job : Job V) (s : Store V) → IsOpen i by now ttl s job
      → P job
      → P (once_claimed i by now ttl s job)
  Keeps (completes_once utc i at) = KeepsRow i (restamped utc (complete_run_once at))
  Keeps (releases_once i by now) = KeepsRow i (restamped now (release_run_once by))
  Keeps (claims_tick i claim now ttl) =
      i ≡ id
      → (job : Job V) (s : Store V) → IsTickable i claim now ttl s job
      → P job
      → P (tick_claimed i claim now ttl s job)
  Keeps (releases_tick utc i) = KeepsRow i (restamped utc clear_tick_claim)
  Keeps (persists utc i next) = KeepsRow i (restamped utc (set_post_tick next))

  apply-Row : (c : JobCall V) (s : Store V) → Keeps c → Row s → Row (apply c s)
  unfolding apply pause_job resume_job mark_run_once_completed release_run_once_claim
      release_job_tick_claim persist_post_tick_job_state
  apply-Row (upserts new) s k r = upsert_job-Row s new k r
  apply-Row (deletes i) s k r = delete_job-Row s i k r
  apply-Row (pauses utc i) s k r = mutate_job_at-Row s i utc (set_enabled false) k r
  apply-Row (resumes utc i) s k r = mutate_job_at-Row s i utc (set_enabled true) k r
  apply-Row (claims_once i by now ttl) s k r = elim (try_claim_run_once-ClaimsOnce i by now ttl s) [
    | inl (_, o) ↦ subst (λ x. Row x.1) (sym o) r
    | inr (old, e, open_, o) ↦
        subst (λ x. Row x.1) (sym o)
          (insert-Row s i (once_claimed i by now ttl s) old e (λ same. k same old s open_) r)
  ]
  apply-Row (completes_once utc i at) s k r = mutate_job_at-Row s i utc (complete_run_once at) k r
  apply-Row (releases_once i by now) s k r = mutate_job_at-Row s i now (release_run_once by) k r
  apply-Row (claims_tick i claim now ttl) s k r =
      elim (claim_job_for_tick-ClaimsTick i claim now ttl s) [
        | inl (_, o) ↦ subst (λ x. Row x.1) (sym o) r
        | inr (old, e, free, o) ↦
            subst (λ x. Row x.1) (sym o)
              (insert-Row s i (tick_claimed i claim now ttl s) old e (λ same. k same old s free) r)
      ]
  apply-Row (releases_tick utc i) s k r = mutate_job_at-Row s i utc clear_tick_claim k r
  apply-Row (persists utc i next) s k r = mutate_job_at-Row s i utc (set_post_tick next) k r

  pub run_calls-Row :
      (cs : List (JobCall V)) (s : Store V) → All Keeps cs → Row s → Row (run_calls cs s)
  unfolding run_calls
  run_calls-Row [] s k r = r
  run_calls-Row (c ∷ cs) s k r = run_calls-Row cs (apply c s) k.1 (apply-Row c s k.0 r)
