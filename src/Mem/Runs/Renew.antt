-- ===== src/Mem/Runs/Renew.antt =====
-- What a lease renewal and a row update do (chronon-backend-mem/src/store/runs.rs).
use chronon.Base.{
  ℕ, none, some, true, false, String, ◌≡◌, ◌⊎◌, inl, inr, Instant, arith, lookup, insert,
  Option-cases, Bool-cases, plus_seconds, holds, ◌&&◌,
}
use chronon.Model.Error.{ok, err, run_not_found}
use chronon.Model.Run.{Run}
use chronon.Mem.State.{Store}
use chronon.Mem.Runs.{renew_run_lease, update_run, is_held}

module _ {V : Type 0} (id worker : String) (now : Instant) (ttl : ℕ) (s : Store V) where
  -- The worker owns the run: it is claimed or running, and claimed by the worker.
  abbrev pub IsOwner : Run V → Type 0
  IsOwner run = (run.claimed_by ≡ some worker) × (is_held run.status ≡ true)

  abbrev pub renewed : Run V → Run V
  renewed run = record run { claim_lease_until = some (plus_seconds now ttl) }

  abbrev pub Renews : Type 0
  Renews =
      (¬ ((run : Run V) × (lookup id s.runs ≡ some run) × IsOwner run)
        × (renew_run_lease id worker now ttl s ≡ (ok false, s)))
      ⊎ ((run : Run V) × (lookup id s.runs ≡ some run)
          × IsOwner run
          × (renew_run_lease id worker now ttl s
              ≡ (ok true, record s { runs = insert id (renewed run) s.runs })))

  renews_found : (run : Run V) → lookup id s.runs ≡ some run → Renews
  unfolding renew_run_lease
  renews_found run e = elim (Bool-cases (holds run.claimed_by worker && is_held run.status)) [
    | inl t ↦ inr (run, e, ground arith, rw (e, renew_run_lease) (ground arith))
    | inr f ↦ inl (λ (q, h, o). ground arith, rw (e, renew_run_lease) (ground arith))
  ]

  -- A renewal succeeds exactly for the owner of a claimed or running run, whether or not its lease
  -- has run out; it then moves the lease's end and nothing else. Otherwise nothing changes.
  pub renew_run_lease-Renews : Renews
  unfolding renew_run_lease
  renew_run_lease-Renews = elim (Option-cases (lookup id s.runs)) [
    | inl e ↦ inl (λ (run, h, o). cc, rw (e, renew_run_lease))
    | inr (run, e) ↦ renews_found run e
  ]

module _ {V : Type 0} (run : Run V) (s : Store V) where
  abbrev pub Updates : Type 0
  Updates =
      ((lookup run.run_id s.runs ≡ none) × (update_run run s ≡ (err (run_not_found run.run_id), s)))
      ⊎ ((old : Run V) × (lookup run.run_id s.runs ≡ some old)
          × (update_run run s ≡ (ok tt, record s { runs = insert run.run_id run s.runs })))

  -- An update of a run that is not stored is an error and changes nothing; any other replaces the
  -- row by the given one, whoever holds the run.
  pub update_run-Updates : Updates
  unfolding update_run
  update_run-Updates = elim (Option-cases (lookup run.run_id s.runs)) [
    | inl e ↦ inl (e, rw (e, update_run))
    | inr (old, e) ↦ inr (old, e, rw (e, update_run))
  ]
