-- ===== src/Mem/Claims.antt =====
-- chronon-backend-mem/src/store/claims.rs: run-once claims, tick claims and the due queries.
-- An argument `utc` is what `Utc::now()` reads inside the call.
pub mod Outcomes
pub mod History
pub mod Exclusive
pub mod Rows
pub mod Due
use chronon.Base.{
  ℕ, Option, none, some, Bool, true, false, not, ◌&&◌, ◌||◌, List, [], ◌∷◌, map, String, ℤ, pos,
  eqb_ℤ, Instant, lookup, insert, values, take, is_empty, filter, any, sort_by, is_some_and,
  is_none_or, is_some, is_none, get_or, ltb, leb, eqb, holds, plus_seconds, if◌then◌else◌, min,
}
use chronon.Model.Error.{Result, ok, err, Io}
use chronon.Model.Job.{Job, is_manual, is_run_once}
use chronon.Mem.State.{Store}
use chronon.Mem.Jobs.{mutate_job, mutate_job_at}

-- `j.partition_hash.is_some_and(|h| parts.contains(&h))`
abbrev pub in_partitions : List ℕ → Option ℤ → Bool
in_partitions parts hash = is_some_and (λ h. any (λ p. eqb_ℤ (pos p) h) parts) hash

module _ {V : Type 0} where
  -- Another holder's claim is live.
  unfoldable pub is_claimed_by_other : String → Instant → Job V → Bool
  is_claimed_by_other claimed_by now job =
      is_some job.run_once_claimed_at
      && is_some_and (λ e. ltb now e) job.run_once_claim_expires_at
      && not (holds job.run_once_claimed_by claimed_by)

  unfoldable pub try_claim_run_once : String → String → Instant → ℕ → Io (Store V) (Result Bool)
  try_claim_run_once job_id claimed_by now claim_ttl_secs s = elim (lookup job_id s.jobs) [
    | none ↦ (ok false, s)
    | some job ↦
        if is_some job.run_once_completed_at
        then (ok false, s)
        else if is_claimed_by_other claimed_by now job
        then (ok false, s)
        else (
          ok true,
          record s {
            jobs =
                insert job_id
                  (record job {
                    run_once_claimed_at = some now;
                    run_once_claimed_by = some claimed_by;
                    run_once_claim_expires_at = some (plus_seconds now claim_ttl_secs);
                    updated_at = now;
                  })
                  s.jobs;
          },
        )
  ]

  abbrev pub clear_run_once_claim : Job V → Job V
  clear_run_once_claim j = record j {
    run_once_claimed_at = none;
    run_once_claimed_by = none;
    run_once_claim_expires_at = none;
  }

  abbrev pub complete_run_once : Instant → Job V → Job V
  complete_run_once completed_at j = record (clear_run_once_claim j) {
    run_once_completed_at = some completed_at;
  }

  unfoldable pub mark_run_once_completed :
      Instant → String → Instant → Io (Store V) (Result (Unit {0}))
  unfolding mutate_job
  mark_run_once_completed utc job_id completed_at =
      mutate_job utc job_id (complete_run_once completed_at)

  abbrev pub release_run_once : String → Job V → Job V
  release_run_once claimed_by j =
      if holds j.run_once_claimed_by claimed_by then clear_run_once_claim j else j

  unfoldable pub release_run_once_claim :
      String → String → Instant → Io (Store V) (Result (Unit {0}))
  unfolding mutate_job_at
  release_run_once_claim job_id claimed_by now =
      mutate_job_at job_id now (release_run_once claimed_by)

  unfoldable pub is_due : Instant → List ℕ → Instant → Job V → Bool
  is_due utc parts due_until j =
      j.enabled
      && not (is_manual j.schedule_kind)
      && is_some_and (λ t. leb t due_until) j.next_run_at
      && in_partitions parts j.partition_hash
      && is_none_or (λ u. ltb u utc) j.claim_lease_until
      && (not (is_run_once j.schedule_kind) || is_none j.run_once_completed_at)

  abbrev pub earliest_first : Instant → Job V → Job V → Bool
  earliest_first due_until a b =
      leb (get_or a.next_run_at due_until) (get_or b.next_run_at due_until)

  unfoldable pub find_due_job_ids_in_partitions :
      Instant → List ℕ → Instant → ℕ → Io (Store V) (Result (List String))
  find_due_job_ids_in_partitions utc owned_partitions due_until limit s =
      if is_empty owned_partitions || eqb limit 0 then (ok [], s) else (
        ok (
            map (λ (j : Job V). j.job_id)
              (take limit (
                sort_by (earliest_first due_until)
                  (filter (is_due utc owned_partitions due_until) (values s.jobs))))),
        s,
      )

  -- `filter_map(|j| j.next_run_at).min()`
  unfoldable pub min_next_run_at : List (Job V) → Option Instant
  min_next_run_at [] = none
  min_next_run_at (j ∷ js) = elim j.next_run_at [
    | none ↦ min_next_run_at js
    | some t ↦ elim (min_next_run_at js) [ none ↦ some t | some u ↦ some (min t u) ]
  ]

  unfoldable pub min_next_run_at_in_partitions : List ℕ → Io (Store V) (Result (Option Instant))
  min_next_run_at_in_partitions owned_partitions s =
      if is_empty owned_partitions then (ok none, s) else (
        ok (
            min_next_run_at (
              filter
                (λ j.
                  j.enabled
                  && not (is_manual j.schedule_kind)
                  && in_partitions owned_partitions j.partition_hash)
                (values s.jobs))),
        s,
      )

  unfoldable pub claim_job_for_tick : String → String → Instant → ℕ → Io (Store V) (Result Bool)
  claim_job_for_tick job_id claim_id now lease_ttl_secs s = elim (lookup job_id s.jobs) [
    | none ↦ (ok false, s)
    | some job ↦
        if not job.enabled
        then (ok false, s)
        else if is_some_and (λ u. leb now u) job.claim_lease_until
        then (ok false, s)
        else (
          ok true,
          record s {
            jobs =
                insert job_id
                  (record job {
                    claim_lease_id = some claim_id;
                    claim_lease_until = some (plus_seconds now lease_ttl_secs);
                    updated_at = now;
                  })
                  s.jobs;
          },
        )
  ]

  abbrev pub clear_tick_claim : Job V → Job V
  clear_tick_claim j = record j { claim_lease_id = none; claim_lease_until = none }

  unfoldable pub release_job_tick_claim : Instant → String → Io (Store V) (Result (Unit {0}))
  unfolding mutate_job
  release_job_tick_claim utc job_id = mutate_job utc job_id clear_tick_claim

  abbrev pub set_post_tick : Option Instant → Job V → Job V
  set_post_tick next_run_at j = record (clear_tick_claim j) { next_run_at = next_run_at }

  unfoldable pub persist_post_tick_job_state :
      Instant → String → Option Instant → Io (Store V) (Result (Unit {0}))
  unfolding mutate_job
  persist_post_tick_job_state utc job_id next_run_at =
      mutate_job utc job_id (set_post_tick next_run_at)
