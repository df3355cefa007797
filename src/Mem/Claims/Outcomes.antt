-- ===== src/Mem/Claims/Outcomes.antt =====
-- The branches of the run-once claim and of the tick claim
-- (chronon-backend-mem/src/store/claims.rs).
use chronon.Base.{
  ℕ, ◌<◌, none, some, true, false, String, ◌≡◌, ◌⊎◌, inl, inr, refl, Instant, arith, lookup, insert,
  Option-cases, Bool-cases, plus_seconds, is_some, leb, ltb, not, ◌||◌,
}
use chronon.Model.Error.{ok}
use chronon.Model.Job.{Job}
use chronon.Mem.State.{Store}
use chronon.Mem.Claims.{try_claim_run_once, is_claimed_by_other, claim_job_for_tick}

module _ {V : Type 0} (id : String) (claimed_by : String) (now : Instant) (ttl : ℕ)
    (s : Store V) where
  -- Not completed, and not under another instance's live claim.
  pub record IsOpen (job : Job V) : Type 0 where
    pub not_completed : job.run_once_completed_at ≡ none
    pub not_claimed :
        (at u : Instant)
        → job.run_once_claimed_at ≡ some at
        → job.run_once_claim_expires_at ≡ some u
        → now < u
        → job.run_once_claimed_by ≡ some claimed_by

  abbrev pub once_claimed : Job V → Job V
  once_claimed job = record job {
    run_once_claimed_at = some now;
    run_once_claimed_by = some claimed_by;
    run_once_claim_expires_at = some (plus_seconds now ttl);
    updated_at = now;
  }

  abbrev pub ClaimsOnce : Type 0
  ClaimsOnce =
      (¬ ((job : Job V) × (lookup id s.jobs ≡ some job) × IsOpen job)
        × (try_claim_run_once id claimed_by now ttl s ≡ (ok false, s)))
      ⊎ ((job : Job V) × (lookup id s.jobs ≡ some job)
          × IsOpen job
          × (try_claim_run_once id claimed_by now ttl s
              ≡ (ok true, record s { jobs = insert id (once_claimed job) s.jobs })))

  -- A job that is open has no live claim of another.
  open_lem : (job : Job V) → IsOpen job → is_claimed_by_other claimed_by now job ≡ false
  unfolding is_claimed_by_other
  open_lem job k = elim (Option-cases job.run_once_claimed_at) [
    | inl e ↦ rw (e, is_claimed_by_other) refl
    | inr (at, e) ↦ elim (Option-cases job.run_once_claim_expires_at) [
      | inl f ↦ rw (e, f, is_claimed_by_other) refl
      | inr (u, f) ↦ elim (Bool-cases (ltb now u)) [
        | inr late ↦ rw (e, f, is_claimed_by_other, late) refl
        | inl live ↦
            let mine : job.run_once_claimed_by ≡ some claimed_by =
              k.not_claimed at u e f (ground arith) in
            rw (e, f, is_claimed_by_other, live, mine) (ground arith)
      ]
    ]
  ]

  -- A live claim that is not another's is the caller's.
  closed_lem :
      (job : Job V) (at u : Instant)
      → job.run_once_claimed_at ≡ some at
      → job.run_once_claim_expires_at ≡ some u
      → now < u
      → is_claimed_by_other claimed_by now job ≡ false
      → job.run_once_claimed_by ≡ some claimed_by
  unfolding is_claimed_by_other
  closed_lem job at u p q h f = elim (Option-cases job.run_once_claimed_by) [
    | inl e ↦ ground (arith, p, q, e)
    | inr (other, e) ↦ ground (arith, p, q, e)
  ]

  claims_once_found : (job : Job V) → lookup id s.jobs ≡ some job → ClaimsOnce
  unfolding try_claim_run_once is_claimed_by_other
  claims_once_found job e =
      elim (Bool-cases
        (is_some job.run_once_completed_at || is_claimed_by_other claimed_by now job)) [
          | inl t ↦ inl (
            λ (q, h, k). ground (arith, k.not_completed, open_lem q k),
            rw (e, try_claim_run_once) (ground arith),
          )
          | inr f ↦ inr (
            job,
            e,
            record {
              not_completed = ground arith;
              not_claimed = λ at u p q h. closed_lem job at u p q h (ground arith);
            },
            rw (e, try_claim_run_once) (ground arith),
          )
        ]

  -- Where the job is stored and open to the caller, not completed and under no live claim of another,
  -- a run-once claim marks its row, for the time to live, and changes nothing else; where there is no
  -- such job it is refused and changes nothing.
  pub try_claim_run_once-ClaimsOnce : ClaimsOnce
  unfolding try_claim_run_once
  try_claim_run_once-ClaimsOnce = elim (Option-cases (lookup id s.jobs)) [
    | inl e ↦ inl (λ (q, h, k). cc, rw (e, try_claim_run_once))
    | inr (job, e) ↦ claims_once_found job e
  ]

module _ {V : Type 0} (id claim_id : String) (now : Instant) (ttl : ℕ) (s : Store V) where
  -- Enabled, and under no live claim.
  pub record IsTickable (job : Job V) : Type 0 where
    pub is_enabled : job.enabled ≡ true
    pub unclaimed : (u : Instant) → job.claim_lease_until ≡ some u → u < now

  abbrev pub tick_claimed : Job V → Job V
  tick_claimed job = record job {
    claim_lease_id = some claim_id;
    claim_lease_until = some (plus_seconds now ttl);
    updated_at = now;
  }

  abbrev pub ClaimsTick : Type 0
  ClaimsTick =
      (¬ ((job : Job V) × (lookup id s.jobs ≡ some job) × IsTickable job)
        × (claim_job_for_tick id claim_id now ttl s ≡ (ok false, s)))
      ⊎ ((job : Job V) × (lookup id s.jobs ≡ some job)
          × IsTickable job
          × (claim_job_for_tick id claim_id now ttl s
              ≡ (ok true, record s { jobs = insert id (tick_claimed job) s.jobs })))

  claims_tick_found : (job : Job V) → lookup id s.jobs ≡ some job → ClaimsTick
  unfolding claim_job_for_tick
  claims_tick_found job e = elim (Option-cases job.claim_lease_until) [
    | inl free ↦ elim (Bool-cases job.enabled) [
      | inl t ↦ inr (
        job,
        e,
        record { is_enabled = t; unclaimed = λ u h. cc },
        rw (e, claim_job_for_tick) (ground arith),
      )
      | inr f ↦
          inl (λ (q, h, k). ground (arith, k.is_enabled), rw (e, claim_job_for_tick) (ground arith))
    ]
    | inr (u, held) ↦ elim (Bool-cases (not job.enabled || leb now u)) [
      | inl t ↦ inl (
        λ (q, h, k). ground (arith, k.is_enabled, k.unclaimed u),
        rw (e, claim_job_for_tick) (ground arith),
      )
      | inr f ↦ inr (
        job,
        e,
        record { is_enabled = ground arith; unclaimed = λ v h. ground arith },
        rw (e, claim_job_for_tick) (ground arith),
      )
    ]
  ]

  -- A tick claim marks the row of an enabled job under no live claim, for the time to live, and changes
  -- nothing else; where there is no such job it is refused and changes nothing.
  pub claim_job_for_tick-ClaimsTick : ClaimsTick
  unfolding claim_job_for_tick
  claim_job_for_tick-ClaimsTick = elim (Option-cases (lookup id s.jobs)) [
    | inl e ↦ inl (λ (q, h, k). cc, rw (e, claim_job_for_tick))
    | inr (job, e) ↦ claims_tick_found job e
  ]
