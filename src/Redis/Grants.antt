-- ===== src/Redis/Grants.antt =====
-- The composite store's claim grants what the SQL store grants.
use chronon.Base.{ℕ, ◌≤◌, ◌<◌, none, some, List, [], ◌∷◌, String, ◌≡◌, Instant, ◌⊎◌}
use chronon.Model.Error.{Result, ok, Io}
use chronon.Model.Run.{Run}
use chronon.Port.{SchedulerStore}
use chronon.Redis.Queue.{RedisQueueLayer, claim_next_run_id, claim_next_run_ids}
use chronon.Redis.Claim.{reconcile_unclaimed, requeue_mismatch}

-- Some rounds, one after another.
pub data Rounds {X : Type 0} (Round : X → X → Type 0) : X → X → Type 0 where
  here : {x : X} → Rounds Round x x
  after : {x y z : X} → Round x y → Rounds Round y z → Rounds Round x z

module _ {V S Q : Type 0} (sql : SchedulerStore V S)
    (claim_many : Instant
      → List String
      → String
      → String
      → Instant
      → ℕ
      → Io S (Result (List (Run V))))
    (redis : RedisQueueLayer Q) (utc : Instant) (pool_id worker_id : String) (now : Instant)
    (ttl : ℕ) where
  -- The queue gives an id, the SQL store refuses it, and the id is put back where it belongs.
  abbrev pub RefusedOne : S × Q → S × Q → Type 0
  RefusedOne x y =
      (run_id : String) × (q : Q) × (s : S) × (claim_next_run_id redis pool_id now x.1
        ≡ (ok (some run_id), q))
      × (sql.claim_run_by_id utc run_id pool_id worker_id now ttl x.0 ≡ (ok none, s))
      × (requeue_mismatch sql claim_many redis utc run_id pool_id now (s, q) ≡ (ok tt, y))

  -- The queue gives an id, and the SQL store grants the run by it; nothing else is done.
  abbrev pub GrantedOne : Run V → S × Q → S × Q → Type 0
  GrantedOne run x y =
      (run_id : String) × (claim_next_run_id redis pool_id now x.1 ≡ (ok (some run_id), y.1))
      × (sql.claim_run_by_id utc run_id pool_id worker_id now ttl x.0 ≡ (ok (some run), y.0))

  -- The queue gives ids, the SQL store grants none, and the ids are put back.
  abbrev pub RefusedBatch : ℕ → S × Q → S × Q → Type 0
  RefusedBatch batch x y =
      (id : String) × (ids : List String) × (q : Q) × (s : S) × (claim_next_run_ids redis pool_id
          batch now x.1
        ≡ (ok (id ∷ ids), q))
      × (claim_many utc (id ∷ ids) pool_id worker_id now ttl x.0 ≡ (ok [], s))
      × (reconcile_unclaimed sql claim_many redis utc (id ∷ ids) [] pool_id now (s, q) ≡ (ok tt, y))

  -- The queue gives ids, the SQL store grants the run and others, and the ids that it does not grant
  -- are put back; the rows are as the grant left them.
  abbrev pub GrantedBatch : ℕ → Run V → S × Q → S × Q → Type 0
  GrantedBatch batch run x y =
      (id : String) × (ids : List String) × (others : List (Run V)) × (q : Q) × (s : S)
      × (claim_next_run_ids redis pool_id batch now x.1 ≡ (ok (id ∷ ids), q))
      × (claim_many utc (id ∷ ids) pool_id worker_id now ttl x.0 ≡ (ok (run ∷ others), s))
      × (reconcile_unclaimed sql claim_many redis utc (id ∷ ids) (run ∷ others) pool_id now (s, q)
          ≡ (ok tt, y))
      × (y.0 ≡ s)

  -- Rounds that are refused, and then one that is granted.
  abbrev pub Granted : (S × Q → S × Q → Type 0) → (S × Q → S × Q → Type 0) → S × Q → S × Q → Type 0
  Granted Refuses Grants from to = (x : S × Q) × Rounds Refuses from x × Grants x to

  -- Ids one by one, or in batches.
  abbrev pub GrantsRun : ℕ → Run V → S × Q → S × Q → Type 0
  GrantsRun batch run from to =
      ((batch ≤ 1) × Granted RefusedOne (GrantedOne run) from to)
      ⊎ ((1 < batch) × Granted (RefusedBatch batch) (GrantedBatch batch run) from to)
