-- ===== src/Redis/Reads.antt =====
-- The requeue steps read the SQL rows and do not write them
-- (chronon-backend-redis/src/composite/claim.rs).
use chronon.Base.{ℕ, Option, none, some, String, ◌≡◌, refl, ◌∙◌, Instant, List, inl, inr, arith}
use chronon.Model.Error.{Result-cases, Result, Io}
use chronon.Model.Run.{Run}
use chronon.Port.{SchedulerStore}
use chronon.Redis.Queue.{RedisQueueLayer}
use chronon.Redis.Claim.{requeue_row, requeue_found, requeue_mismatch}
use chronon.Redis.Contract.{RunClaims}

module _ {V S Q : Type 0} (sql : SchedulerStore V S)
    (claim_many : Instant
      → List String
      → String
      → String
      → Instant
      → ℕ
      → Io S (Result (List (Run V))))
    (redis : RedisQueueLayer Q) (utc : Instant) where
  requeue_row-sql :
      (run : Run V) (pool_id : String) (now : Instant) (s : S) (q : Q)
      → (requeue_row sql claim_many redis utc run pool_id now (s, q)).1.0 ≡ s
  unfolding requeue_row
  requeue_row-sql run pool_id now s q = ground arith

  requeue_found-sql :
      (found : Option (Run V)) (pool_id : String) (now : Instant) (s : S) (q : Q)
      → (requeue_found sql claim_many redis utc found pool_id now (s, q)).1.0 ≡ s
  unfolding requeue_found
  requeue_found-sql none pool_id now s q = refl
  requeue_found-sql (some run) pool_id now s q = requeue_row-sql run pool_id now s q

  pub requeue_mismatch-sql :
      (claims : RunClaims sql) (run_id pool_id : String) (now : Instant) (s : S) (q : Q)
      → (requeue_mismatch sql claim_many redis utc run_id pool_id now (s, q)).1.0 ≡ s
  unfolding requeue_mismatch
  requeue_mismatch-sql claims run_id pool_id now s q =
      elim (Result-cases (sql.get_run utc run_id s).0) [
        | inl (found, e) ↦
            rw (e, requeue_mismatch)
              (requeue_found-sql found pool_id now _ q ∙ claims.reads utc run_id s)
        | inr (e, h) ↦ rw (h, requeue_mismatch) (claims.reads utc run_id s)
      ]
