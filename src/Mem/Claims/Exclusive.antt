-- ===== src/Mem/Claims/Exclusive.antt =====
-- What no call of a coordinator undoes: a completed run-once job, and a live tick claim
-- (chronon-backend-mem/src/store/claims.rs).
use chronon.Base.{
  ℕ, ◌≤◌, some, false, List, [], ◌∷◌, String, ◌≡◌, refl, subst, ◌≢◌, inl, inr, Instant, arith, All,
  lookup,
}
use chronon.Model.Error.{ok}
use chronon.Model.Job.{Job}
use chronon.Mem.State.{Store}
use chronon.Mem.Claims.{try_claim_run_once, claim_job_for_tick}
use chronon.Mem.Claims.Outcomes.{
  try_claim_run_once-ClaimsOnce, claim_job_for_tick-ClaimsTick, IsTickable,
}
use chronon.Mem.Claims.History.{
  JobCall, upserts, deletes, pauses, resumes, claims_once, completes_once, releases_once,
  claims_tick, releases_tick, persists, run_calls,
}
use chronon.Mem.Claims.Rows.{Keeps, run_calls-Row}

module _ {V : Type 0} (id : String) where
  -- The run-once job has been enqueued.
  abbrev IsCompleted : Job V → Type 0
  IsCompleted job = (t : Instant) × (job.run_once_completed_at ≡ some t)

  -- The call does not replace or delete the job.
  abbrev pub Spares : JobCall V → Type 0
  Spares (upserts new) = new.job_id ≢ id
  Spares (deletes i) = i ≢ id
  Spares _ = Unit

  Spares-Keeps : (c : JobCall V) → Spares c → Keeps id IsCompleted c
  Spares-Keeps (upserts new) k = k
  Spares-Keeps (deletes i) k = k
  Spares-Keeps (pauses utc i) k = λ same job p. p
  Spares-Keeps (resumes utc i) k = λ same job p. p
  Spares-Keeps (claims_once i by now ttl) k = λ same job s open_ p. p
  Spares-Keeps (completes_once utc i at) k = λ same job p. (at, refl)
  Spares-Keeps (releases_once i by now) k = λ same job p. (p.0, ground arith)
  Spares-Keeps (claims_tick i claim now ttl) k = λ same job s free p. p
  Spares-Keeps (releases_tick utc i) k = λ same job p. p
  Spares-Keeps (persists utc i next) k = λ same job p. p

  All-Spares-Keeps : (cs : List (JobCall V)) → All Spares cs → All (Keeps id IsCompleted) cs
  All-Spares-Keeps [] h = tt
  All-Spares-Keeps (c ∷ cs) h = (Spares-Keeps c h.0, All-Spares-Keeps cs h.1)

  -- Once a run-once job is marked completed, no coordinator can claim it for an enqueue again, after
  -- whatever calls do not replace or delete the job.
  pub completed_once :
      (cs : List (JobCall V)) (s : Store V) (job : Job V) (done : Instant)
      → lookup id s.jobs ≡ some job
      → job.run_once_completed_at ≡ some done
      → All Spares cs
      → (by : String) (now : Instant) (ttl : ℕ)
      → try_claim_run_once id by now ttl (run_calls cs s) ≡ (ok false, run_calls cs s)
  completed_once cs s job done e d k by now ttl =
      let (row, at, h) =
        run_calls-Row id IsCompleted cs s (All-Spares-Keeps cs k) (job, e, (done, d)) in
      elim (try_claim_run_once-ClaimsOnce id by now ttl (run_calls cs s)) [
        | inl (_, o) ↦ o
        | inr (q, e', open_, _) ↦ ground (arith, h.1, open_.not_completed)
      ]

module _ {V : Type 0} (id : String) (until : Instant) where
  -- The job is under a tick claim that lasts to `until`.
  abbrev IsTicking : Job V → Type 0
  IsTicking job = (u : Instant) × (job.claim_lease_until ≡ some u) × (until ≤ u)

  -- The call comes no later than `until`, does not replace or delete the job, and is no release of
  -- its tick claim.
  abbrev pub LeavesClaim : JobCall V → Type 0
  LeavesClaim (upserts new) = new.job_id ≢ id
  LeavesClaim (deletes i) = i ≢ id
  LeavesClaim (claims_tick i claim now ttl) = now ≤ until
  LeavesClaim (releases_tick utc i) = i ≢ id
  LeavesClaim (persists utc i next) = i ≢ id
  LeavesClaim _ = Unit

  not-IsTickable :
      (claim : String) (now : Instant) (ttl : ℕ) (s : Store V) (job : Job V)
      → now ≤ until
      → IsTicking job
      → ¬ IsTickable id claim now ttl s job
  not-IsTickable claim now ttl s job h (u, e, le) f = omega (arith, f.unclaimed u e)

  LeavesClaim-Keeps : (c : JobCall V) → LeavesClaim c → Keeps id IsTicking c
  LeavesClaim-Keeps (upserts new) k = k
  LeavesClaim-Keeps (deletes i) k = k
  LeavesClaim-Keeps (pauses utc i) k = λ same job p. p
  LeavesClaim-Keeps (resumes utc i) k = λ same job p. p
  LeavesClaim-Keeps (claims_once i by now ttl) k = λ same job s open_ p. p
  LeavesClaim-Keeps (completes_once utc i at) k = λ same job p. p
  LeavesClaim-Keeps (releases_once i by now) k = λ same job p. (p.0, ground arith, p.2)
  LeavesClaim-Keeps (claims_tick i claim now ttl) k =
      λ same job s free p. absurd (omega (arith, free.unclaimed p.0 p.1, p.2))
  LeavesClaim-Keeps (releases_tick utc i) k = λ same job p. absurd (k same)
  LeavesClaim-Keeps (persists utc i next) k = λ same job p. absurd (k same)

  All-LeavesClaim-Keeps : (cs : List (JobCall V)) → All LeavesClaim cs → All (Keeps id IsTicking) cs
  All-LeavesClaim-Keeps [] h = tt
  All-LeavesClaim-Keeps (c ∷ cs) h = (LeavesClaim-Keeps c h.0, All-LeavesClaim-Keeps cs h.1)

  -- While a tick claim lasts to `until` or longer, a claim of the job no later than `until` is refused
  -- and changes nothing, after whatever calls keep to `LeavesClaim`.
  pub tick_claim_exclusive :
      (cs : List (JobCall V)) (s : Store V) (job : Job V) (u : Instant)
      → lookup id s.jobs ≡ some job
      → job.claim_lease_until ≡ some u
      → until ≤ u
      → All LeavesClaim cs
      → (claim : String) (now : Instant) (ttl : ℕ) → now ≤ until
      → claim_job_for_tick id claim now ttl (run_calls cs s) ≡ (ok false, run_calls cs s)
  tick_claim_exclusive cs s job u e held le k claim now ttl h =
      let (row, at, t) =
        run_calls-Row id IsTicking cs s (All-LeavesClaim-Keeps cs k) (job, e, (u, held, le)) in
      elim (claim_job_for_tick-ClaimsTick id claim now ttl (run_calls cs s)) [
        | inl (_, o) ↦ o
        | inr (q, e', free, _) ↦
            let same : row ≡ q = ground arith in
            absurd (not-IsTickable claim now ttl (run_calls cs s) q h (subst IsTicking same t) free)
      ]
