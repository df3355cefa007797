-- ===== src/Redis/Claim.antt =====
-- chronon-backend-redis/src/composite/claim.rs: runs are claimed in the order of the ready queue, and
-- each claim is checked against the SQL rows. A state is the SQL store's and the queue's.
use chronon.Base.{
  ℕ, zero, suc, min, max, Option, none, some, not, List, [], ◌∷◌, String, Instant, any, get_or,
  is_some_and, ltb, leb, ◌==◌, if◌then◌else◌,
}
use chronon.Model.Error.{Result, ok, Io, ◌>>=◌, pure, try_ok}
use chronon.Model.Run.{Run}
use chronon.Mem.Runs.{is_queued}
use chronon.Port.{SchedulerStore}
use chronon.Redis.Queue.{RedisQueueLayer, enqueue_run, claim_next_run_id, claim_next_run_ids}

-- chronon-backend-sql-common/src/row/pool_key.rs
unfoldable pub run_pool_key : Option String → String
run_pool_key none = "general"
run_pool_key (some other) = other

-- `var` is the environment variable, where it is set; `parse` reads a `usize`.
unfoldable pub claim_batch_size : (String → Option ℕ) → Option String → ℕ
claim_batch_size parse none = 1
claim_batch_size parse (some v) = min 64 (max 1 (get_or (parse v) 1))

unfoldable pub max_attempts : ℕ
max_attempts = 64

module _ {S Q : Type 0} where
  abbrev pub on_sql : {A : Type 0} → Io S A → Io (S × Q) A
  on_sql m (s, q) = let (a, s') = m s in (a, (s', q))

  abbrev pub on_queue : {A : Type 0} → Io Q A → Io (S × Q) A
  on_queue m (s, q) = let (a, q') = m q in (a, (s, q'))

-- `.into_iter().next()`
abbrev pub head : {A : Type 0} → List A → Option A
head [] = none
head (x ∷ xs) = some x

-- `claim_many` is the store's `claim_runs_by_ids`, which a SQL store overrides.
module _ {V S Q : Type 0} (sql : SchedulerStore V S)
    (claim_many : Instant
      → List String
      → String
      → String
      → Instant
      → ℕ
      → Io S (Result (List (Run V))))
    (redis : RedisQueueLayer Q) (utc : Instant) where
  abbrev requeue : String → Run V → Io (S × Q) (Result (Unit {0}))
  requeue pool_id run = on_queue (enqueue_run redis pool_id run.run_id run.scheduled_for)

  -- What becomes of the run that the row shows.
  unfoldable pub requeue_row : Run V → String → Instant → Io (S × Q) (Result (Unit {0}))
  requeue_row run pool_id now =
      let actual_pool = run_pool_key run.pool_id in
      if not (is_queued run.status)
      then pure (ok tt)
      else if ltb now run.scheduled_for
      then requeue actual_pool run
      else if not (actual_pool == pool_id)
      then requeue actual_pool run
      else if is_some_and (λ u. ltb now u) run.claim_lease_until
      then requeue pool_id run
      else pure (ok tt)

  unfoldable pub requeue_found : Option (Run V) → String → Instant → Io (S × Q) (Result (Unit {0}))
  requeue_found none pool_id now = pure (ok tt)
  requeue_found (some run) pool_id now = requeue_row run pool_id now

  unfoldable pub requeue_mismatch : String → String → Instant → Io (S × Q) (Result (Unit {0}))
  unfolding requeue_found
  requeue_mismatch run_id pool_id now = do
    found ← on_sql (sql.get_run utc run_id)
    try_ok found λ run. requeue_found run pool_id now

  -- `if let Some(run) = claimed { return Ok(Some(run)) }`, and what comes after it.
  abbrev pub granted_or :
      Option (Run V) → Io (S × Q) (Result (Option (Run V))) → Io (S × Q) (Result (Option (Run V)))
  granted_or (some run) rest = pure (ok (some run))
  granted_or none rest = rest

  unfoldable pub claim_one :
      String → String → String → Instant → ℕ → Io (S × Q) (Result (Option (Run V)))
  claim_one run_id pool_id worker_id now lease_ttl_secs = do
    granted ← on_sql (sql.claim_run_by_id utc run_id pool_id worker_id now lease_ttl_secs)
    try_ok granted λ run.
        granted_or run
          do requeued ← requeue_mismatch run_id pool_id now; try_ok requeued λ _. pure (ok none)

  unfoldable pub reconcile_unclaimed :
      List String → List (Run V) → String → Instant → Io (S × Q) (Result (Unit {0}))
  reconcile_unclaimed [] claimed pool_id now = pure (ok tt)
  reconcile_unclaimed (run_id ∷ run_ids) claimed pool_id now =
      let rest = reconcile_unclaimed run_ids claimed pool_id now in
      if any (λ (r : Run V). r.run_id == run_id) claimed
      then rest
      else (do requeued ← requeue_mismatch run_id pool_id now; try_ok requeued λ _. rest)

  module _ (pool_id worker_id : String) (now : Instant) (lease_ttl_secs : ℕ) where
    -- One round on a popped id; `rest` is the rounds that are left.
    unfoldable pub claim_popped :
        Option String → Io (S × Q) (Result (Option (Run V))) → Io (S × Q) (Result (Option (Run V)))
    claim_popped none rest = pure (ok none)
    claim_popped (some run_id) rest = do
      claimed ← claim_one run_id pool_id worker_id now lease_ttl_secs
      try_ok claimed λ run. granted_or run rest

    unfoldable pub claim_singly : ℕ → Io (S × Q) (Result (Option (Run V)))
    claim_singly zero = pure (ok none)
    claim_singly (suc attempts) = do
      popped ← on_queue (claim_next_run_id redis pool_id now)
      try_ok popped λ run_id. claim_popped run_id (claim_singly attempts)

    -- One round on a popped batch.
    unfoldable pub claim_batch :
        List String → Io (S × Q) (Result (Option (Run V))) → Io (S × Q) (Result (Option (Run V)))
    claim_batch [] rest = pure (ok none)
    claim_batch (id ∷ ids) rest = do
      granted ← on_sql (claim_many utc (id ∷ ids) pool_id worker_id now lease_ttl_secs)
      try_ok granted λ claimed. do
        reconciled ← reconcile_unclaimed (id ∷ ids) claimed pool_id now
        try_ok reconciled λ _. granted_or (head claimed) rest

    unfoldable pub claim_in_batches : ℕ → ℕ → Io (S × Q) (Result (Option (Run V)))
    claim_in_batches batch zero = pure (ok none)
    claim_in_batches batch (suc attempts) = do
      popped ← on_queue (claim_next_run_ids redis pool_id batch now)
      try_ok popped λ run_ids. claim_batch run_ids (claim_in_batches batch attempts)

    unfoldable pub claim_next_queued : ℕ → Io (S × Q) (Result (Option (Run V)))
    unfolding max_attempts
    claim_next_queued batch =
        if leb batch 1 then claim_singly max_attempts else claim_in_batches batch max_attempts
