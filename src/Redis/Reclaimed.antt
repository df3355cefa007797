-- ===== src/Redis/Reclaimed.antt =====
-- What the composite store puts into the ready queue (chronon-backend-redis/src/composite/mod.rs).
use chronon.Base.{
  ℕ, Option, none, some, true, List, [], ◌∷◌, String, ◌≡◌, refl, sym, ◌∙◌, subst, Instant, any,
  ◌==◌, inl, inr, text_discrete, arith,
}
use chronon.Model.Error.{Result-cases, Result, ok, Io}
use chronon.Model.Run.{Run}
use chronon.Mem.Runs.{is_queued}
use chronon.Port.{SchedulerStore}
use chronon.Redis.Queue.{RedisQueueLayer, enqueue_run, ready_key}
use chronon.Redis.Claim.{run_pool_key}
use chronon.Redis.Contract.{ReadySet, RunClaims}
use chronon.Redis.Composite.{
  create_run, enqueue_found, enqueue_reclaimed, reclaim_expired_run_leases,
}

module _ {V S Q : Type 0} (sql : SchedulerStore V S)
    (claim_many : Instant
      → List String
      → String
      → String
      → Instant
      → ℕ
      → Io S (Result (List (Run V))))
    (redis : RedisQueueLayer Q) (batch : ℕ) (set : ReadySet redis.server) (utc : Instant) where
  abbrev InReady : Q → Run V → Type 0
  InReady q run = set.Ready q (ready_key redis (run_pool_key run.pool_id)) run.run_id

  -- A queued run that is created without a failure is in the ready queue of its pool.
  pub create_run-InReady :
      (run : Run V) (s : S) (q : Q)
      → is_queued run.status ≡ true
      → (create_run sql claim_many redis batch utc run (s, q)).0 ≡ ok tt
      → InReady (create_run sql claim_many redis batch utc run (s, q)).1.1 run
  unfolding create_run enqueue_run
  create_run-InReady run s q queued h = elim (Result-cases (sql.create_run utc run s).0) [
    | inr (e, f) ↦ cc (rw (f, create_run) at h)
    | inl (u, f) ↦ rw (f, create_run, queued) (set.adds _ _ _ _ (rw (f, create_run, queued) at h))
  ]

  enqueue_found-keeps :
      (found : Option (Run V)) (s : S) (q : Q) (key id : String)
      → set.Ready q key id
      → set.Ready (enqueue_found sql claim_many redis batch found (s, q)).1.1 key id
  unfolding enqueue_found enqueue_run
  enqueue_found-keeps none s q key id h = h
  enqueue_found-keeps (some run) s q key id h = set.keeps _ _ _ q key id h

  enqueue_found-sql :
      (found : Option (Run V)) (s : S) (q : Q)
      → (enqueue_found sql claim_many redis batch found (s, q)).1.0 ≡ s
  unfolding enqueue_found
  enqueue_found-sql none s q = refl
  enqueue_found-sql (some run) s q = refl

  enqueue_reclaimed-keeps :
      (claims : RunClaims sql) (ids : List String) (s : S) (q : Q) (key id : String)
      → set.Ready q key id
      → set.Ready (enqueue_reclaimed sql claim_many redis batch utc ids (s, q)).1.1 key id
  unfolding enqueue_reclaimed
  enqueue_reclaimed-keeps claims [] s q key id h = h
  enqueue_reclaimed-keeps claims (run_id ∷ ids) s q key id h =
      elim (Result-cases (sql.get_run utc run_id s).0) [
        | inr (e, f) ↦ rw (f, enqueue_reclaimed) h
        | inl (found, f) ↦
            let s1 = (sql.get_run utc run_id s).1 in
            let kept = enqueue_found-keeps found s1 q key id h in
            elim (Result-cases (enqueue_found sql claim_many redis batch found (s1, q)).0) [
              | inr (e, g) ↦ rw (f, enqueue_reclaimed, g) kept
              | inl (u, g) ↦
                  rw (f, enqueue_reclaimed, g) (enqueue_reclaimed-keeps claims ids _ _ key id kept)
            ]
      ]

  enqueue_reclaimed-sql :
      (claims : RunClaims sql) (ids : List String) (s : S) (q : Q)
      → (enqueue_reclaimed sql claim_many redis batch utc ids (s, q)).1.0 ≡ s
  unfolding enqueue_reclaimed
  enqueue_reclaimed-sql claims [] s q = refl
  enqueue_reclaimed-sql claims (run_id ∷ ids) s q =
      elim (Result-cases (sql.get_run utc run_id s).0) [
        | inr (e, f) ↦ rw (f, enqueue_reclaimed) (claims.reads utc run_id s)
        | inl (found, f) ↦
            let s1 = (sql.get_run utc run_id s).1 in
            let same = enqueue_found-sql found s1 q ∙ claims.reads utc run_id s in
            elim (Result-cases (enqueue_found sql claim_many redis batch found (s1, q)).0) [
              | inr (e, g) ↦ rw (f, enqueue_reclaimed, g) same
              | inl (u, g) ↦
                  rw (f, enqueue_reclaimed, g) (enqueue_reclaimed-sql claims ids _ _ ∙ same)
            ]
      ]

  enqueue_found-InReady :
      (run : Run V) (s : S) (q : Q)
      → (enqueue_found sql claim_many redis batch (some run) (s, q)).0 ≡ ok tt
      → InReady (enqueue_found sql claim_many redis batch (some run) (s, q)).1.1 run
  unfolding enqueue_found enqueue_run
  enqueue_found-InReady run s q h = set.adds _ _ _ q h

  enqueue_reclaimed-InReady :
      (claims : RunClaims sql) (ids : List String) (run_id : String) (run : Run V) (s : S) (q : Q)
      → any (λ id. id == run_id) ids ≡ true
      → (enqueue_reclaimed sql claim_many redis batch utc ids (s, q)).0 ≡ ok tt
      → (sql.get_run utc run_id s).0 ≡ ok (some run)
      → InReady (enqueue_reclaimed sql claim_many redis batch utc ids (s, q)).1.1 run
  unfolding enqueue_reclaimed
  enqueue_reclaimed-InReady claims [] run_id run s q m h at = cc m
  enqueue_reclaimed-InReady claims (id ∷ ids) run_id run s q m h at =
      elim (Result-cases (sql.get_run utc id s).0) [
        | inr (e, f) ↦ cc (rw (f, enqueue_reclaimed) at h)
        | inl (found, f) ↦
            let s1 = (sql.get_run utc id s).1 in
            let same = enqueue_found-sql found s1 q ∙ claims.reads utc id s in
            elim (Result-cases (enqueue_found sql claim_many redis batch found (s1, q)).0) [
              | inr (e, g) ↦ cc (rw (f, enqueue_reclaimed, g) at h)
              | inl (u, g) ↦
                  let s2 = (enqueue_found sql claim_many redis batch found (s1, q)).1 in
                  rw (f, enqueue_reclaimed, g)
                    (elim (text_discrete id run_id) [
                      | yes p ↦ enqueue_reclaimed-keeps claims ids s2.0 s2.1 _ _ (
                          found_ready found s1 q
                            (cc (subst (λ x. (sql.get_run utc x s).0 ≡ ok found) p f, at)) g)
                      | no other ↦
                          enqueue_reclaimed-InReady claims ids run_id run s2.0 s2.1 (ground arith)
                            (rw (f, enqueue_reclaimed, g) at h)
                            (subst (λ x. (sql.get_run utc run_id x).0 ≡ ok (some run)) (sym same)
                              at)
                    ])
            ]
      ]
    where
      found_ready :
          (found : Option (Run V)) (s1 : S) (q : Q)
          → found ≡ some run
          → (enqueue_found sql claim_many redis batch found (s1, q)).0 ≡ ok tt
          → InReady (enqueue_found sql claim_many redis batch found (s1, q)).1.1 run
      found_ready found s1 q e h =
          subst
            (λ o.
              (enqueue_found sql claim_many redis batch o (s1, q)).0 ≡ ok tt
              → InReady (enqueue_found sql claim_many redis batch o (s1, q)).1.1 run)
            (sym e) (enqueue_found-InReady run s1 q) h

  -- Let the reclaim of expired leases succeed. Then each run among the ids that it returns, as the row
  -- that SQL now shows for it, is in the ready queue of the row's pool.
  pub reclaim_expired_run_leases-InReady :
      (claims : RunClaims sql) (now : Instant) (s : S) (q : Q) (ids : List String) (run_id : String)
      (run : Run V)
      → (reclaim_expired_run_leases sql claim_many redis batch utc now (s, q)).0 ≡ ok ids
      → any (λ id. id == run_id) ids ≡ true
      → (sql.get_run utc run_id
          (reclaim_expired_run_leases sql claim_many redis batch utc now (s, q)).1.0).0
        ≡ ok (some run)
      → InReady (reclaim_expired_run_leases sql claim_many redis batch utc now (s, q)).1.1 run
  unfolding reclaim_expired_run_leases
  reclaim_expired_run_leases-InReady claims now s q ids run_id run h m at =
      elim (Result-cases (sql.reclaim_expired_run_leases utc now s).0) [
        | inr (e, f) ↦ cc (rw (f, reclaim_expired_run_leases) at h)
        | inl (reclaimed, f) ↦
            let s1 = (sql.reclaim_expired_run_leases utc now s).1 in
            elim (Result-cases
              (enqueue_reclaimed sql claim_many redis batch utc reclaimed (s1, q)).0) [
                | inr (e, g) ↦ cc (rw (f, reclaim_expired_run_leases, g) at h)
                | inl (u, g) ↦
                    let same : reclaimed ≡ ids = cc (rw (f, reclaim_expired_run_leases, g) at h) in
                    rw (f, reclaim_expired_run_leases, g)
                      (enqueue_reclaimed-InReady claims reclaimed run_id run s1 q (rw same m) g (
                        subst (λ x. (sql.get_run utc run_id x).0 ≡ ok (some run))
                          (enqueue_reclaimed-sql claims reclaimed s1 q)
                          (rw (f, reclaim_expired_run_leases, g) at at)))
              ]
      ]
