-- ===== src/Mem/Runs.antt =====
-- chronon-backend-mem/src/store/runs.rs: run rows, worker claims, lease renewal and reclaim.
-- `lease_ttl_secs` is at least 0.
pub mod Claim
pub mod Renew
pub mod Lease
use chronon.Base.{
  ℕ, Option, none, some, Bool, true, false, not, ◌&&◌, ◌||◌, List, [], ◌∷◌, String, Instant, lookup,
  insert, values, take, drop, filter, sort_by, is_some_and, is_none_or, is_none, ltb, leb, ◌==◌,
  holds, plus_seconds, if◌then◌else◌,
}
use chronon.Model.Error.{Result, ok, err, Io, run_not_found}
use chronon.Model.Status.{RunStatus, eqb_status, queued, claimed, running}
use chronon.Model.Run.{Run}
use chronon.Mem.State.{Store}

abbrev pub is_queued : RunStatus → Bool
is_queued queued = true
is_queued _ = false

-- `matches!(status, Claimed | Running)`
abbrev pub is_held : RunStatus → Bool
is_held claimed = true
is_held running = true
is_held _ = false

module _ {V : Type 0} where
  unfoldable pub create_run : Run V → Io (Store V) (Result (Unit {0}))
  create_run run s = (ok tt, record s { runs = insert run.run_id run s.runs })

  unfoldable pub update_run : Run V → Io (Store V) (Result (Unit {0}))
  update_run run s = elim (lookup run.run_id s.runs) [
    | none ↦ (err (run_not_found run.run_id), s)
    | some _ ↦ (ok tt, record s { runs = insert run.run_id run s.runs })
  ]

  unfoldable pub get_run : String → Io (Store V) (Result (Option (Run V)))
  get_run run_id s = (ok (lookup run_id s.runs), s)

  -- `sort_by_key(Reverse(scheduled_for))`
  abbrev pub latest_first : Run V → Run V → Bool
  latest_first a b = leb b.scheduled_for a.scheduled_for

  unfoldable pub list_runs_for_job : String → ℕ → Io (Store V) (Result (List (Run V)))
  list_runs_for_job job_id limit s = (
    ok (take limit (sort_by latest_first (filter (λ r. holds r.job_id job_id) (values s.runs)))),
    s,
  )

  unfoldable pub list_runs_filtered :
      Option String → Option RunStatus → ℕ → ℕ → Io (Store V) (Result (List (Run V)))
  list_runs_filtered job_id status offset limit s =
      let of_job =
        filter (λ (r : Run V). is_none_or (λ id. holds r.job_id id) job_id) (values s.runs) in
      let of_status =
        filter (λ (r : Run V). is_none_or (λ t. eqb_status r.status t) status) of_job in
      (ok (take limit (drop offset (sort_by latest_first of_status))), s)

  unfoldable pub pool_ok : String → Run V → Bool
  pool_ok pool_id run =
      holds run.pool_id pool_id
      || (pool_id == "general" && (is_none run.pool_id || holds run.pool_id "general"))

  -- The tests that both claims make before they take a run.
  unfoldable pub is_claimable : String → Instant → Run V → Bool
  unfolding pool_ok
  is_claimable pool_id now run =
      is_queued run.status
      && not (ltb now run.scheduled_for)
      && not (is_some_and (λ u. ltb now u) run.claim_lease_until)
      && pool_ok pool_id run

  unfoldable pub claim : String → Instant → ℕ → Run V → Run V
  claim worker_id now lease_ttl_secs run = record run {
    status = claimed;
    claimed_by = some worker_id;
    claim_lease_until = some (plus_seconds now lease_ttl_secs);
  }

  -- The loop over all runs, with the best candidate so far.
  unfoldable pub pick_candidate :
      String → Instant → Option (String × Run V) → List (String × Run V) → Option (String × Run V)
  pick_candidate pool_id now candidate [] = candidate
  pick_candidate pool_id now candidate ((id, run) ∷ rest) =
      pick_candidate pool_id now
        (if is_claimable pool_id now run
            && is_none_or (λ c. ltb run.scheduled_for c.1.scheduled_for) candidate
          then some (id, run)
          else candidate)
        rest

  unfoldable pub claim_next_queued :
      String → String → Instant → ℕ → Io (Store V) (Result (Option (Run V)))
  claim_next_queued pool_id worker_id now lease_ttl_secs s =
      elim (pick_candidate pool_id now none s.runs) [
        | none ↦ (ok none, s)
        | some (run_id, run) ↦
            let run' = claim worker_id now lease_ttl_secs run in
            (ok (some run'), record s { runs = insert run_id run' s.runs })
      ]

  unfoldable pub claim_run_by_id :
      String → String → String → Instant → ℕ → Io (Store V) (Result (Option (Run V)))
  claim_run_by_id run_id pool_id worker_id now lease_ttl_secs s = elim (lookup run_id s.runs) [
    | none ↦ (ok none, s)
    | some run ↦
        let run' = claim worker_id now lease_ttl_secs run in
        if is_claimable pool_id now run
        then (ok (some run'), record s { runs = insert run_id run' s.runs })
        else (ok none, s)
  ]

  unfoldable pub renew_run_lease : String → String → Instant → ℕ → Io (Store V) (Result Bool)
  renew_run_lease run_id worker_id now lease_ttl_secs s = elim (lookup run_id s.runs) [
    | none ↦ (ok false, s)
    | some run ↦
        if not (holds run.claimed_by worker_id)
        then (ok false, s)
        else if not (is_held run.status)
        then (ok false, s)
        else (
          ok true,
          record s {
            runs =
                insert run_id
                  (record run { claim_lease_until = some (plus_seconds now lease_ttl_secs) })
                  s.runs;
          },
        )
  ]

  unfoldable pub is_expired : Instant → Run V → Bool
  is_expired now run = is_held run.status && not (is_none_or (λ u. ltb now u) run.claim_lease_until)

  unfoldable pub requeue : Run V → Run V
  requeue run = record run {
    status = queued;
    claimed_by = none;
    claim_lease_until = none;
    started_at = none;
  }

  unfoldable pub reclaim_entries :
      Instant → List (String × Run V) → List String × List (String × Run V)
  reclaim_entries now [] = ([], [])
  reclaim_entries now ((id, run) ∷ m) =
      let (ids, m') = reclaim_entries now m in
      if is_expired now run then (id ∷ ids, (id, requeue run) ∷ m') else (ids, (id, run) ∷ m')

  unfoldable pub reclaim_expired_run_leases : Instant → Io (Store V) (Result (List String))
  reclaim_expired_run_leases now s =
      let (ids, runs') = reclaim_entries now s.runs in (ok ids, record s { runs = runs' })
