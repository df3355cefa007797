-- ===== src/Scheduler/Assigner.antt =====
-- chronon-scheduler/src/partition_assigner.rs: the leases of the partitions. `show_u32` and
-- `parse_u32` write a partition's number and read one; `utc k` is the k-th reading of the clock.
pub mod Leases
use chronon.Base.{
  ℕ, suc, ◌+◌, ◌-◌, ◌/◌, Option, none, some, Bool, true, false, not, ◌&&◌, List, [], ◌∷◌, ◌++◌,
  String, Instant, length, any, find, sort_by, ltb, leb, eqb, ◌==◌, max, is_empty_text,
  plus_seconds, if◌then◌else◌,
}
use chronon.Model.Coordination.{PartitionAssignment}
use chronon.Model.Error.{Result, ok, err, Io, ◌>>=◌, ◌>>◌, pure, try_ok}
use chronon.Port.{SchedulerStore}
use chronon.Scheduler.Leader.{PartitionAssigner, upto}

abbrev pub named : String → PartitionAssignment → Bool
named key r = r.partition_id == key

-- `HashSet::insert`
unfoldable pub insert_owner : String → List String → List String
insert_owner owner owners = if any (λ o. o == owner) owners then owners else owner ∷ owners

-- The owners of leases that run, each once; the clock is read for each row.
unfoldable pub alive_owners : (ℕ → Instant) → List PartitionAssignment → List String → List String
unfolding insert_owner
alive_owners utc [] owners = owners
alive_owners utc (row ∷ rows) owners =
    alive_owners (λ k. utc (suc k)) rows
      (if ltb (utc 0) row.lease_until && not (is_empty_text row.owner_instance_id)
        then insert_owner row.owner_instance_id owners
        else owners)

-- `num_partitions.div_ceil(live.max(1))`
unfoldable pub fair_share : ℕ → ℕ → ℕ
fair_share num_partitions live = let parts = max live 1 in (num_partitions + (parts - 1)) / parts

abbrev push_some : Option ℕ → List ℕ → List ℕ
push_some none pids = pids
push_some (some pid) pids = pid ∷ pids

module _ {V S : Type 0} (db : SchedulerStore V S) (show_u32 : ℕ → String)
    (parse_u32 : String → Option ℕ) (instance_id : String) (ttl : ℕ) where
  -- The rows that this instance holds, by their numbers.
  unfoldable pub held_pids : (ℕ → Instant) → List PartitionAssignment → List ℕ
  held_pids utc [] = []
  held_pids utc (row ∷ rows) =
      let rest = held_pids (λ k. utc (suc k)) rows in
      if row.owner_instance_id == instance_id && ltb (utc 0) row.lease_until
      then push_some (parse_u32 row.partition_id) rest
      else rest

  unfoldable pub ensure_row : (ℕ → Instant) → ℕ → Io S (Result (Unit {0}))
  ensure_row utc pid = do
    listed ← db.list_partition_assignments (utc 0)
    try_ok listed λ rows.
        if any (named (show_u32 pid)) rows
        then pure (ok tt)
        else db.upsert_partition_assignment (utc 2) (record {
          partition_id = show_u32 pid;
          owner_instance_id = "";
          lease_until = 0;
          updated_at = utc 1;
        })

  -- The row that gives this instance the partition until `now` plus the lease's length.
  unfoldable pub lease_row : String → Instant → PartitionAssignment
  lease_row key now = record {
    partition_id = key;
    owner_instance_id = instance_id;
    lease_until = plus_seconds now ttl;
    updated_at = now;
  }

  unfoldable pub steal_found :
      (ℕ → Instant) → String → Option PartitionAssignment → Io S (Result Bool)
  unfolding lease_row
  steal_found utc key none = pure (ok false)
  steal_found utc key (some row) =
      if ltb (utc 0) row.lease_until && not (row.owner_instance_id == instance_id)
      then pure (ok false)
      else (do
        stored ← db.upsert_partition_assignment (utc 2) (lease_row key (utc 0))
        try_ok stored λ _. pure (ok true))

  unfoldable pub try_steal_partition : (ℕ → Instant) → ℕ → Io S (Result Bool)
  unfolding steal_found
  try_steal_partition utc pid = do
    listed ← db.list_partition_assignments (utc 1)
    try_ok listed λ rows. steal_found utc (show_u32 pid) (find (named (show_u32 pid)) rows)

  unfoldable pub renew_found :
      (ℕ → Instant) → String → Option PartitionAssignment → Io S (Result (Unit {0}))
  unfolding lease_row
  renew_found utc key none = pure (ok tt)
  renew_found utc key (some row) =
      if not (row.owner_instance_id == instance_id)
      then pure (ok tt)
      else db.upsert_partition_assignment (utc 2) (lease_row key (utc 1))

  unfoldable pub renew_owned : (ℕ → Instant) → ℕ → Io S (Result (Unit {0}))
  unfolding renew_found
  renew_owned utc pid = do
    listed ← db.list_partition_assignments (utc 0)
    try_ok listed λ rows. renew_found utc (show_u32 pid) (find (named (show_u32 pid)) rows)

  -- The three loops; the clock in round `k` is `utc k`.
  unfoldable pub ensure_rows : (ℕ → ℕ → Instant) → List ℕ → Io S (Result (Unit {0}))
  ensure_rows utc [] = pure (ok tt)
  ensure_rows utc (pid ∷ pids) = do
    ensured ← ensure_row (utc 0) pid
    try_ok ensured λ _. ensure_rows (λ k. utc (suc k)) pids

  -- A renewal that fails is passed over.
  unfoldable pub renew_all : (ℕ → ℕ → Instant) → List ℕ → Io S (Unit {0})
  renew_all utc [] = pure tt
  renew_all utc (pid ∷ pids) = renew_owned (utc 0) pid >> renew_all (λ k. utc (suc k)) pids

  unfoldable pub steal_up_to : ℕ → (ℕ → ℕ → Instant) → List ℕ → List ℕ → Io S (Result (List ℕ))
  steal_up_to target utc [] mine = pure (ok mine)
  steal_up_to target utc (pid ∷ pids) mine =
      let later = steal_up_to target (λ k. utc (suc k)) pids in
      if leb target (length mine)
      then pure (ok mine)
      else if any (eqb pid) mine
      then later mine
      else (do
        stolen ← try_steal_partition (utc 0) pid
        try_ok stolen λ won. later (if won then sort_by leb (mine ++ pid ∷ []) else mine))

  -- From the listed rows on. The rounds of the loops read the clocks `utc 1` and `utc 2`, the passes
  -- over the rows `seen 0` and `seen 1`.
  unfoldable pub rebalance :
      (ℕ → ℕ → ℕ → Instant)
      → (ℕ → ℕ → Instant)
      → PartitionAssigner
      → List PartitionAssignment
      → Io S (Result PartitionAssigner)
  unfolding fair_share
  rebalance utc seen a rows = do
    let target = fair_share a.num_partitions (length (alive_owners (seen 0) rows []))
    let mine = held_pids (seen 1) rows
    renew_all (utc 1) mine
    taken ← steal_up_to target (utc 2) (upto a.num_partitions) mine
    try_ok taken λ owned. pure (ok (record a { owned = sort_by leb owned }))

  -- The rounds of the first loop read the clocks `utc 0`.
  unfoldable pub refresh_leases :
      (ℕ → ℕ → ℕ → Instant)
      → (ℕ → ℕ → Instant)
      → PartitionAssigner
      → Io S (Result PartitionAssigner)
  refresh_leases utc seen a = do
    ensured ← ensure_rows (utc 0) (upto a.num_partitions)
    try_ok ensured λ _. do
      listed ← db.list_partition_assignments (seen 0 0)
      try_ok listed λ rows. rebalance utc seen a rows
