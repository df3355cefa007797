-- ===== src/Mem/Runs/Lease.antt =====
-- A worker's lease on a run, under what the workers and the reclaim task of a host do to the store
-- (chronon-backend-mem/src/store/runs.rs).
use chronon.Base.{
  ℕ, ◌≤◌, ◌<◌, none, some, true, false, List, [], ◌∷◌, String, ◌≡◌, refl, sym, subst, ◌≢◌, inl, inr,
  Instant, arith, All, Distinct, lookup, insert, lookup-insert, insert-Distinct, plus_seconds,
  text_discrete,
}
use chronon.Model.Error.{ok}
use chronon.Model.Run.{Run}
use chronon.Mem.State.{Store}
use chronon.Mem.Runs.{
  claim_next_queued, claim_run_by_id, renew_run_lease, reclaim_expired_run_leases, reclaim_entries,
  create_run, update_run, is_held, is_expired, requeue, claim,
}
use chronon.Mem.Runs.Renew.{renew_run_lease-Renews, renewed, update_run-Updates}
use chronon.Mem.Runs.Claim.{IsFree, claim_next_queued-TakesFirst, claim_run_by_id-TakesRun}

-- The calls that the workers make, with the instant of each.
pub data WorkerCall (V : Type 0) : Type 0 where
  claims_next : String → String → Instant → ℕ → WorkerCall V
  claims_id : String → String → String → Instant → ℕ → WorkerCall V
  renews : String → String → Instant → ℕ → WorkerCall V
  reclaims : Instant → WorkerCall V
  creates : Run V → WorkerCall V
  updates : Run V → WorkerCall V

module _ {V : Type 0} where
  unfoldable pub apply : WorkerCall V → Store V → Store V
  apply (claims_next pool worker now ttl) s = (claim_next_queued pool worker now ttl s).1
  apply (claims_id id pool worker now ttl) s = (claim_run_by_id id pool worker now ttl s).1
  apply (renews id worker now ttl) s = (renew_run_lease id worker now ttl s).1
  apply (reclaims now) s = (reclaim_expired_run_leases now s).1
  apply (creates run) s = (create_run run s).1
  apply (updates run) s = (update_run run s).1

  unfoldable pub run_calls : List (WorkerCall V) → Store V → Store V
  run_calls [] s = s
  run_calls (c ∷ cs) s = run_calls cs (apply c s)

  -- A reclaim requeues exactly the claimed and running runs whose lease has run out; no other row
  -- appears, goes or changes.
  pub lookup-reclaim :
      (now : Instant) (id : String) (m : List (String × Run V))
      → lookup id (reclaim_entries now m).1 ≡ elim (lookup id m) [
        | none ↦ none
        | some run ↦ elim (is_expired now run) [ true ↦ some (requeue run) | false ↦ some run ]
      ]
  unfolding reclaim_entries lookup
  lookup-reclaim now id [] = refl
  lookup-reclaim now id ((j, run) ∷ m) = ground (arith, lookup-reclaim now id m)

  reclaim-Distinct :
      (now : Instant) (m : List (String × Run V)) → Distinct m → Distinct (reclaim_entries now m).1
  unfolding reclaim_entries lookup
  reclaim-Distinct now [] d = tt
  reclaim-Distinct now ((j, run) ∷ m) d =
      ground (arith, lookup-reclaim now j m, reclaim-Distinct now m d.1)

  pub apply-Distinct :
      (c : WorkerCall V) (s : Store V) → Distinct s.runs → Distinct (apply c s).runs
  unfolding apply create_run update_run renew_run_lease reclaim_expired_run_leases
  apply-Distinct (claims_next pool worker now ttl) s d =
      elim (claim_next_queued-TakesFirst pool worker now ttl s d) [
        | inl (_, e) ↦ subst (λ r. Distinct r.1.runs) (sym e) d
        | inr (id, run, _, e) ↦
            subst (λ r. Distinct r.1.runs) (sym e)
              (insert-Distinct id (claim worker now ttl run) s.runs d)
      ]
  apply-Distinct (claims_id id pool worker now ttl) s d =
      elim (claim_run_by_id-TakesRun pool worker now ttl s id) [
        | inl (_, e) ↦ subst (λ r. Distinct r.1.runs) (sym e) d
        | inr (run, _, _, e) ↦
            subst (λ r. Distinct r.1.runs) (sym e)
              (insert-Distinct id (claim worker now ttl run) s.runs d)
      ]
  apply-Distinct (renews id worker now ttl) s d =
      elim (renew_run_lease-Renews id worker now ttl s) [
        | inl (_, e) ↦ subst (λ r. Distinct r.1.runs) (sym e) d
        | inr (run, _, _, e) ↦
            subst (λ r. Distinct r.1.runs) (sym e)
              (insert-Distinct id (renewed id worker now ttl s run) s.runs d)
      ]
  apply-Distinct (reclaims now) s d = reclaim-Distinct now s.runs d
  apply-Distinct (creates run) s d = insert-Distinct run.run_id run s.runs d
  apply-Distinct (updates run) s d = elim (update_run-Updates run s) [
    | inl (_, e) ↦ subst (λ r. Distinct r.1.runs) (sym e) d
    | inr (_, _, e) ↦
        subst (λ r. Distinct r.1.runs) (sym e) (insert-Distinct run.run_id run s.runs d)
  ]

  module _ (id worker : String) (until : Instant) where
    -- The worker holds the run under a lease that lasts past `until`.
    abbrev pub HoldsRun : Run V → Type 0
    HoldsRun run =
        (is_held run.status ≡ true)
        × (run.claimed_by ≡ some worker)
        × (u : Instant) × (run.claim_lease_until ≡ some u)
        × (until < u)

    abbrev pub Holds : Store V → Type 0
    Holds s = (run : Run V) × (lookup id s.runs ≡ some run) × HoldsRun run

    -- Up to `until` a reclaim may run and any lease may be renewed, provided that a renewal does
    -- not end the lease before `until`. Other runs may be written, and any worker may claim.
    abbrev pub IsWithin : WorkerCall V → Type 0
    IsWithin (claims_next _ _ _ _) = Unit
    IsWithin (claims_id _ _ _ _ _) = Unit
    IsWithin (renews _ _ now ttl) = until < plus_seconds now ttl
    IsWithin (reclaims now) = now ≤ until
    IsWithin (creates run) = run.run_id ≢ id
    IsWithin (updates run) = run.run_id ≢ id

    kept_by_insert :
        (s : Store V) (j : String) (run : Run V)
        → (j ≡ id → HoldsRun run)
        → Holds s
        → (r : Run V) × (lookup id (insert j run s.runs) ≡ some r) × HoldsRun r
    kept_by_insert s j run h (r, e, k) = elim (text_discrete j id) [
      | yes same ↦ (run, ground (arith, lookup-insert j id run s.runs), h same)
      | no other ↦ (r, ground (arith, lookup-insert j id run s.runs), k)
    ]

    not-IsFree :
        (pool : String) (now : Instant) (run q : Run V)
        → HoldsRun run
        → run ≡ q
        → ¬ IsFree pool now q
    not-IsFree pool now run q k e f = ground (arith, f.waiting)

    not_expired :
        (now : Instant) (run : Run V) → now ≤ until → HoldsRun run → is_expired now run ≡ false
    unfolding is_expired
    not_expired now run h (held, own, u, e, lt) = ground arith

    apply-Holds :
        (c : WorkerCall V) (s : Store V)
        → IsWithin c
        → Distinct s.runs
        → Holds s
        → Holds (apply c s)
    unfolding apply create_run update_run renew_run_lease reclaim_expired_run_leases
    apply-Holds (claims_next pool w now ttl) s a d (run, e, k) =
        elim (claim_next_queued-TakesFirst pool w now ttl s d) [
          | inl (_, o) ↦ subst (λ r. Holds r.1) (sym o) (run, e, k)
          | inr (j, q, f, o) ↦
              subst (λ r. Holds r.1) (sym o)
                (kept_by_insert s j (claim w now ttl q)
                  (λ same. absurd (not-IsFree pool now run q k (ground (arith, f.stored)) f.free))
                  (run, e, k))
        ]
    apply-Holds (claims_id j pool w now ttl) s a d (run, e, k) =
        elim (claim_run_by_id-TakesRun pool w now ttl s j) [
          | inl (_, o) ↦ subst (λ r. Holds r.1) (sym o) (run, e, k)
          | inr (q, at, f, o) ↦
              subst (λ r. Holds r.1) (sym o)
                (kept_by_insert s j (claim w now ttl q)
                  (λ same. absurd (not-IsFree pool now run q k (ground arith) f)) (run, e, k))
        ]
    apply-Holds (renews j w now ttl) s a d (run, e, k) =
        elim (renew_run_lease-Renews j w now ttl s) [
          | inl (_, o) ↦ subst (λ r. Holds r.1) (sym o) (run, e, k)
          | inr (q, at, own, o) ↦
              let same_run : j ≡ id → run ≡ q = λ same. ground arith in
              subst (λ r. Holds r.1) (sym o)
                (kept_by_insert s j (renewed j w now ttl s q)
                  (λ same.
                    let p = same_run same in
                    (own.1, ground (arith, p, k.1), plus_seconds now ttl, refl, a))
                  (run, e, k))
        ]
    apply-Holds (reclaims now) s a d (run, e, k) =
        (run, ground (arith, lookup-reclaim now id s.runs, not_expired now run a k), k)
    apply-Holds (creates new) s a d h = kept_by_insert s new.run_id new (λ same. absurd (a same)) h
    apply-Holds (updates new) s a d h = elim (update_run-Updates new s) [
      | inl (_, o) ↦ subst (λ r. Holds r.1) (sym o) h
      | inr (_, _, o) ↦
          subst (λ r. Holds r.1) (sym o)
            (kept_by_insert s new.run_id new (λ same. absurd (a same)) h)
    ]

    run_calls-Holds :
        (cs : List (WorkerCall V)) (s : Store V)
        → All IsWithin cs
        → Distinct s.runs
        → Holds s
        → Holds (run_calls cs s)
    unfolding run_calls
    run_calls-Holds [] s a d h = h
    run_calls-Holds (c ∷ cs) s a d h =
        run_calls-Holds cs (apply c s) a.1 (apply-Distinct c s d) (apply-Holds c s a.0 d h)

    -- With one row to a run id, a worker that holds a run under a lease that lasts past `until` still
    -- holds it after calls of any workers that keep to `IsWithin`, and a claim of that run, by
    -- whomever and whenever, is then refused.
    pub lease_exclusive :
        (cs : List (WorkerCall V)) (s : Store V)
        → All IsWithin cs
        → Distinct s.runs
        → Holds s
        → Holds (run_calls cs s)
          × ((pool rival : String) (now : Instant) (ttl : ℕ)
              → claim_run_by_id id pool rival now ttl (run_calls cs s) ≡ (ok none, run_calls cs s))
    lease_exclusive cs s a d h =
        let (run, e, k) = run_calls-Holds cs s a d h in
        (
          (run, e, k),
          λ pool rival now ttl.
              elim (claim_run_by_id-TakesRun pool rival now ttl (run_calls cs s) id) [
                | inl (_, o) ↦ o
                | inr (q, at, f, _) ↦ absurd (not-IsFree pool now run q k (ground arith) f)
              ],
        )
