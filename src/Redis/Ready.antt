-- ===== src/Redis/Ready.antt =====
-- A run that waits in SQL stays in the ready queue of its pool: the requeue steps
-- (chronon-backend-redis/src/composite/claim.rs).
use chronon.Base.{
  ℕ, Option, none, some, true, false, ◌&&◌, ◌||◌, String, ◌≡◌, sym, ap, ◌∙◌, subst, Instant, ◌==◌,
  is_none, holds, List, inl, inr, arith, text_discrete,
}
use chronon.Model.Error.{Result-cases, Result, ok, Io}
use chronon.Model.Run.{Run}
use chronon.Mem.Runs.{is_queued, is_claimable, pool_ok}
use chronon.Port.{SchedulerStore}
use chronon.Redis.Queue.{RedisQueueLayer, ready_key, enqueue_run}
use chronon.Redis.Claim.{on_queue, run_pool_key, requeue_row, requeue_mismatch, claim_one}
use chronon.Redis.Contract.{ReadySet, RunClaims}
use chronon.Redis.Reads.{requeue_mismatch-sql}

-- The pool key that a run goes by admits it.
admits :
    (o : Option String) (pool_id : String)
    → run_pool_key o ≡ pool_id
    → (holds o pool_id || (pool_id == "general" && (is_none o || holds o "general"))) ≡ true
unfolding run_pool_key
admits none pool_id e = ground arith
admits (some p) pool_id e = ground arith

admits-pool_ok :
    {V : Type 0} (run : Run V) (pool_id : String)
    → run_pool_key run.pool_id ≡ pool_id
    → pool_ok pool_id run ≡ true
unfolding pool_ok
admits-pool_ok run pool_id e = admits run.pool_id pool_id e

module _ {V S Q : Type 0} (sql : SchedulerStore V S)
    (claim_many : Instant
      → List String
      → String
      → String
      → Instant
      → ℕ
      → Io S (Result (List (Run V))))
    (redis : RedisQueueLayer Q) (set : ReadySet redis.server) (utc : Instant) where
  -- The id stands in the ready queue of the pool that the run goes by.
  abbrev pub InReady : Q → Run V → Type 0
  InReady q run = set.Ready q (ready_key redis (run_pool_key run.pool_id)) run.run_id

  -- A queued run that a claim refused goes back to its own pool's queue, whatever the reason.
  requeue_row-own_pool :
      (run : Run V) (pool_id : String) (now : Instant)
      → is_queued run.status ≡ true
      → is_claimable pool_id now run ≡ false
      → requeue_row sql claim_many redis utc run pool_id now
        ≡ on_queue (enqueue_run redis (run_pool_key run.pool_id) run.run_id run.scheduled_for)
  unfolding requeue_row is_claimable
  requeue_row-own_pool run pool_id now queued refused =
      elim (text_discrete (run_pool_key run.pool_id) pool_id) [
        | no other ↦ ground arith
        | yes same ↦ ground (arith, admits-pool_ok run pool_id same)
      ]

  requeue_mismatch-InReady :
      (claims : RunClaims sql) (run_id pool_id : String) (now : Instant) (s : S) (q : Q)
      (run : Run V)
      → is_queued run.status ≡ true
      → is_claimable pool_id now run ≡ false
      → (sql.get_run utc run_id s).0 ≡ ok (some run)
      → (requeue_mismatch sql claim_many redis utc run_id pool_id now (s, q)).0 ≡ ok tt
      → InReady (requeue_mismatch sql claim_many redis utc run_id pool_id now (s, q)).1.1 run
  unfolding requeue_mismatch enqueue_run
  requeue_mismatch-InReady claims run_id pool_id now s q run queued refused found done =
      rw (found, requeue_mismatch, requeue_row-own_pool run pool_id now queued refused)
        (set.adds _ _ _ _ (
          rw (found, requeue_mismatch, requeue_row-own_pool run pool_id now queued refused) at
            done))

  -- The ways to no run without a failure: SQL granted none, and the requeue succeeded.
  claim_one-eq-none :
      (run_id pool_id worker_id : String) (now : Instant) (ttl : ℕ) (s : S) (q : Q)
      → (claim_one sql claim_many redis utc run_id pool_id worker_id now ttl (s, q)).0 ≡ ok none
      → ((sql.claim_run_by_id utc run_id pool_id worker_id now ttl s).0 ≡ ok none)
        × ((requeue_mismatch sql claim_many redis utc run_id pool_id now
              ((sql.claim_run_by_id utc run_id pool_id worker_id now ttl s).1, q)).0
            ≡ ok tt)
        × ((claim_one sql claim_many redis utc run_id pool_id worker_id now ttl (s, q)).1
            ≡ (requeue_mismatch sql claim_many redis utc run_id pool_id now
                ((sql.claim_run_by_id utc run_id pool_id worker_id now ttl s).1, q)).1)
  unfolding claim_one
  claim_one-eq-none run_id pool_id worker_id now ttl s q h =
      elim (Result-cases (sql.claim_run_by_id utc run_id pool_id worker_id now ttl s).0) [
        | inr (e, f) ↦ cc (rw (f, claim_one) at h)
        | inl (some run, f) ↦ cc (rw (f, claim_one) at h)
        | inl (none, f) ↦
            elim (Result-cases
              (requeue_mismatch sql claim_many redis utc run_id pool_id now
                ((sql.claim_run_by_id utc run_id pool_id worker_id now ttl s).1, q)).0) [
                  | inr (e, g) ↦ cc (rw (f, claim_one, g) at h)
                  | inl (u, g) ↦ (f, g, rw (f, claim_one, g))
                ]
      ]

  -- Let a popped id be tried and not granted, with no failure. If the row that SQL then shows is
  -- queued, the run is in the ready queue of its own pool again: a pop loses no waiting run, be it
  -- early, in another pool or under a lease.
  pub claim_one-InReady :
      (claims : RunClaims sql) (run_id pool_id worker_id : String) (now : Instant) (ttl : ℕ) (s : S)
      (q : Q) (run : Run V)
      → (claim_one sql claim_many redis utc run_id pool_id worker_id now ttl (s, q)).0 ≡ ok none
      → (sql.get_run utc run_id
          (claim_one sql claim_many redis utc run_id pool_id worker_id now ttl (s, q)).1.0).0
        ≡ ok (some run)
      → is_queued run.status ≡ true
      → InReady (claim_one sql claim_many redis utc run_id pool_id worker_id now ttl (s, q)).1.1 run
  claim_one-InReady claims run_id pool_id worker_id now ttl s q run refused found queued =
      let (granted, done, after) = claim_one-eq-none run_id pool_id worker_id now ttl s q refused in
      let s1 = (sql.claim_run_by_id utc run_id pool_id worker_id now ttl s).1 in
      let kept = requeue_mismatch-sql sql claim_many redis utc claims run_id pool_id now s1 q in
      let shown : (sql.get_run utc run_id s1).0 ≡ ok (some run) =
        subst (λ x. (sql.get_run utc run_id x).0 ≡ ok (some run)) (ap (λ x. x.0) after ∙ kept)
          found in
      subst (λ x. InReady x.1 run) (sym after)
        (requeue_mismatch-InReady claims run_id pool_id now s1 q run queued
          (claims.refuses utc run_id pool_id worker_id now ttl s run granted shown) shown done)
