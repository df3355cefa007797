-- ===== src/Scheduler/Assigner/Leases.antt =====
-- A refresh leaves the leases of the other coordinators alone (chronon-scheduler/src/partition_assigner.rs).
use chronon.Base.{
  ℕ, suc, ◌<◌, Option, none, some, true, not, ◌&&◌, List, [], ◌∷◌, String, ◌≡◌, ◌≢◌, refl, ap, ◌∙◌,
  Instant, any, find, All, values, lookup, insert, lookup-insert_ne, ltb, length, leb, eqb, ◌==◌,
  text_discrete, arith, Bool-cases, inl, inr,
}
use chronon.Model.Coordination.{PartitionAssignment}
use chronon.Model.Error.{Result-cases}
use chronon.Mem.Coordinator.{upsert_partition_assignment, list_partition_assignments}
use chronon.Mem.Port.{mem_store}
use chronon.Mem.State.{Store}
use chronon.Scheduler.Assigner.{
  named, ensure_row, steal_found, try_steal_partition, renew_found, renew_owned, ensure_rows,
  renew_all, steal_up_to, refresh_leases, lease_row, rebalance, fair_share, alive_owners, held_pids,
}
use chronon.Scheduler.Leader.{PartitionAssigner, upto}

-- Each row stands under its own id.
abbrev pub IsKeyed : List (String × PartitionAssignment) → Type 0
IsKeyed m = All (λ e. e.1.partition_id ≡ e.0) m

find-named :
    (k : String) (m : List (String × PartitionAssignment))
    → IsKeyed m
    → find (named k) (values m) ≡ lookup k m
unfolding lookup
find-named k [] w = refl
find-named k ((j, row) ∷ m) w = ground (arith, w.0, find-named k m w.1)

any-named :
    (k : String) (m : List (String × PartitionAssignment)) (r : PartitionAssignment)
    → IsKeyed m
    → lookup k m ≡ some r
    → any (named k) (values m) ≡ true
unfolding lookup
any-named k [] r w h = cc h
any-named k ((j, row) ∷ m) r w h = ground (arith, w.0, any-named k m r w.1)

insert-IsKeyed :
    (row : PartitionAssignment) (m : List (String × PartitionAssignment))
    → IsKeyed m
    → IsKeyed (insert row.partition_id row m)
unfolding insert
insert-IsKeyed row [] w = (refl, tt)
insert-IsKeyed row ((j, x) ∷ m) w = ground (arith, w.0, insert-IsKeyed row m w.1)

module _ (instance_id : String) (r : PartitionAssignment)
    (others : r.owner_instance_id ≢ instance_id) where
  -- A row of another is not this instance's to renew.
  foreign : not (r.owner_instance_id == instance_id) ≡ true
  foreign = ground arith

  -- The test by which a live lease of another is left alone.
  blocked :
      (now : Instant)
      → now < r.lease_until
      → (ltb now r.lease_until && not (r.owner_instance_id == instance_id)) ≡ true
  blocked now live = ground arith

-- The row `r` stands under its id `k`.
abbrev pub Keeps : {V : Type 0} → String → PartitionAssignment → Store V → Type 0
Keeps k r s = IsKeyed s.partitions × (lookup k s.partitions ≡ some r)

module _ {V : Type 0} (show_u32 : ℕ → String) (parse_u32 : String → Option ℕ) (instance_id : String)
    (ttl : ℕ) (k : String) (r : PartitionAssignment)
    (others : r.owner_instance_id ≢ instance_id) where
  upsert-Keeps :
      (row : PartitionAssignment) (s : Store V)
      → row.partition_id ≢ k
      → Keeps k r s
      → Keeps k r (upsert_partition_assignment row s).1
  unfolding upsert_partition_assignment
  upsert-Keeps row s n (w, at) = (
    insert-IsKeyed row s.partitions w,
    lookup-insert_ne row.partition_id k row s.partitions n ∙ at,
  )

  ensure_row-Keeps :
      (utc : ℕ → Instant) (pid : ℕ) (s : Store V)
      → Keeps k r s
      → Keeps k r (ensure_row (mem_store V) show_u32 parse_u32 instance_id ttl utc pid s).1
  unfolding ensure_row list_partition_assignments
  ensure_row-Keeps utc pid s (w, at) = elim (text_discrete (show_u32 pid) k) [
    | yes p ↦
        rw
          (
            ap (λ key. any (named key) (values s.partitions)) p ∙ any-named k s.partitions r w at,
            ensure_row,
          )
          (w, at)
    | no n ↦ elim (Bool-cases (any (named (show_u32 pid)) (values s.partitions))) [
      | inl t ↦ rw (t, ensure_row) (w, at)
      | inr f ↦ rw (f, ensure_row) (upsert-Keeps _ s n (w, at))
    ]
  ]

  found :
      (key : String) (s : Store V)
      → key ≡ k
      → Keeps k r s
      → find (named key) (values s.partitions) ≡ some r
  found key s p (w, at) =
      ap (λ x. find (named x) (values s.partitions)) p ∙ find-named k s.partitions w ∙ at

  steal_found-Keeps :
      (utc : ℕ → Instant) (key : String) (row : Option PartitionAssignment) (s : Store V)
      → key ≢ k
      → Keeps k r s
      → Keeps k r (steal_found (mem_store V) show_u32 parse_u32 instance_id ttl utc key row s).1
  unfolding steal_found upsert_partition_assignment
  steal_found-Keeps utc key none s n h = h
  steal_found-Keeps utc key (some row) s n h =
      elim (Bool-cases
        (ltb (utc 0) row.lease_until && not (row.owner_instance_id == instance_id))) [
          | inl t ↦ rw (t, steal_found) h
          | inr f ↦
              rw (f, steal_found)
                (upsert-Keeps
                  (lease_row (mem_store V) show_u32 parse_u32 instance_id ttl key (utc 0)) s n h)
        ]

  try_steal_partition-Keeps :
      (utc : ℕ → Instant) (pid : ℕ) (s : Store V)
      → utc 0 < r.lease_until
      → Keeps k r s
      → Keeps k r (try_steal_partition (mem_store V) show_u32 parse_u32 instance_id ttl utc pid s).1
  unfolding try_steal_partition steal_found list_partition_assignments
  try_steal_partition-Keeps utc pid s live h = elim (text_discrete (show_u32 pid) k) [
    | yes p ↦
        rw
          (
            found (show_u32 pid) s p h,
            try_steal_partition,
            blocked instance_id r others (utc 0) live,
          )
          h
    | no n ↦ unfold try_steal_partition in steal_found-Keeps utc (show_u32 pid) _ s n h
  ]

  renew_found-Keeps :
      (utc : ℕ → Instant) (key : String) (row : Option PartitionAssignment) (s : Store V)
      → key ≢ k
      → Keeps k r s
      → Keeps k r (renew_found (mem_store V) show_u32 parse_u32 instance_id ttl utc key row s).1
  unfolding renew_found upsert_partition_assignment
  renew_found-Keeps utc key none s n h = h
  renew_found-Keeps utc key (some row) s n h =
      elim (Bool-cases (not (row.owner_instance_id == instance_id))) [
        | inl t ↦ rw (t, renew_found) h
        | inr f ↦
            rw (f, renew_found)
              (upsert-Keeps (lease_row (mem_store V) show_u32 parse_u32 instance_id ttl key (utc 1))
                s n h)
      ]

  renew_owned-Keeps :
      (utc : ℕ → Instant) (pid : ℕ) (s : Store V)
      → Keeps k r s
      → Keeps k r (renew_owned (mem_store V) show_u32 parse_u32 instance_id ttl utc pid s).1
  unfolding renew_owned renew_found list_partition_assignments
  renew_owned-Keeps utc pid s h = elim (text_discrete (show_u32 pid) k) [
    | yes p ↦ rw (found (show_u32 pid) s p h, renew_owned, foreign instance_id r others) h
    | no n ↦ unfold renew_owned in renew_found-Keeps utc (show_u32 pid) _ s n h
  ]

  ensure_rows-Keeps :
      (utc : ℕ → ℕ → Instant) (pids : List ℕ) (s : Store V)
      → Keeps k r s
      → Keeps k r (ensure_rows (mem_store V) show_u32 parse_u32 instance_id ttl utc pids s).1
  unfolding ensure_rows
  ensure_rows-Keeps utc [] s h = h
  ensure_rows-Keeps utc (pid ∷ pids) s h =
      let kept = ensure_row-Keeps (utc 0) pid s h in
      elim (Result-cases
        (ensure_row (mem_store V) show_u32 parse_u32 instance_id ttl (utc 0) pid s).0) [
          | inl (u, f) ↦ rw (f, ensure_rows) (ensure_rows-Keeps (λ k. utc (suc k)) pids _ kept)
          | inr (e, f) ↦ rw (f, ensure_rows) kept
        ]

  renew_all-Keeps :
      (utc : ℕ → ℕ → Instant) (pids : List ℕ) (s : Store V)
      → Keeps k r s
      → Keeps k r (renew_all (mem_store V) show_u32 parse_u32 instance_id ttl utc pids s).1
  unfolding renew_all
  renew_all-Keeps utc [] s h = h
  renew_all-Keeps utc (pid ∷ pids) s h =
      renew_all-Keeps (λ k. utc (suc k)) pids _ (renew_owned-Keeps (utc 0) pid s h)

  steal_up_to-Keeps :
      (target : ℕ) (utc : ℕ → ℕ → Instant) (pids mine : List ℕ) (s : Store V)
      → ((round : ℕ) → utc round 0 < r.lease_until)
      → Keeps k r s
      → Keeps k r
          (steal_up_to (mem_store V) show_u32 parse_u32 instance_id ttl target utc pids mine s).1
  unfolding steal_up_to
  steal_up_to-Keeps target utc [] mine s live h = h
  steal_up_to-Keeps target utc (pid ∷ pids) mine s live h =
      let later = λ (mine : List ℕ) (s : Store V) (h : Keeps k r s).
        steal_up_to-Keeps target (λ k. utc (suc k)) pids mine s (λ round. live (suc round)) h in
      elim (Bool-cases (leb target (length mine))) [
        | inl t ↦ rw (t, steal_up_to) h
        | inr f ↦ elim (Bool-cases (any (eqb pid) mine)) [
          | inl t ↦ rw (f, steal_up_to, t) (later mine s h)
          | inr g ↦
              let kept = try_steal_partition-Keeps (utc 0) pid s (live 0) h in
              elim (Result-cases
                (try_steal_partition (mem_store V) show_u32 parse_u32 instance_id ttl (utc 0) pid
                  s).0) [
                    | inl (won, q) ↦ rw (f, steal_up_to, g, q) (later _ _ kept)
                    | inr (e, q) ↦ rw (f, steal_up_to, g, q) kept
                  ]
        ]
      ]

  rebalance-Keeps :
      (utc : ℕ → ℕ → ℕ → Instant) (seen : ℕ → ℕ → Instant) (a : PartitionAssigner)
      (rows : List PartitionAssignment) (s : Store V)
      → ((round : ℕ) → utc 2 round 0 < r.lease_until)
      → Keeps k r s
      → Keeps k r (rebalance (mem_store V) show_u32 parse_u32 instance_id ttl utc seen a rows s).1
  unfolding rebalance
  rebalance-Keeps utc seen a rows s live h =
      let target = fair_share a.num_partitions (length (alive_owners (seen 0) rows [])) in
      let mine = held_pids (mem_store V) show_u32 parse_u32 instance_id ttl (seen 1) rows in
      let s1 = (renew_all (mem_store V) show_u32 parse_u32 instance_id ttl (utc 1) mine s).1 in
      let kept =
        steal_up_to-Keeps target (utc 2) (upto a.num_partitions) mine s1 live
          (renew_all-Keeps (utc 1) mine s h) in
      elim (Result-cases
        (steal_up_to (mem_store V) show_u32 parse_u32 instance_id ttl target (utc 2)
          (upto a.num_partitions) mine s1).0) [
            | inl (owned, q) ↦ rw (q, rebalance) kept
            | inr (e, q) ↦ rw (q, rebalance) kept
          ]

  -- Let another coordinator hold a lease that is still live at each try of the refresh to take a
  -- partition. The refresh over the in-memory store, whatever its outcome, leaves that row exactly as
  -- it was: no partition is taken from a live owner.
  pub refresh_leases-Keeps :
      (utc : ℕ → ℕ → ℕ → Instant) (seen : ℕ → ℕ → Instant) (a : PartitionAssigner) (s : Store V)
      → ((round : ℕ) → utc 2 round 0 < r.lease_until)
      → Keeps k r s
      → Keeps k r (refresh_leases (mem_store V) show_u32 parse_u32 instance_id ttl utc seen a s).1
  unfolding refresh_leases list_partition_assignments
  refresh_leases-Keeps utc seen a s live h =
      let kept = ensure_rows-Keeps (utc 0) (upto a.num_partitions) s h in
      elim (Result-cases
        (ensure_rows (mem_store V) show_u32 parse_u32 instance_id ttl (utc 0)
          (upto a.num_partitions) s).0) [
            | inr (e, f) ↦ rw (f, refresh_leases) kept
            | inl (u, f) ↦ rw (f, refresh_leases) (rebalance-Keeps utc seen a _ _ live kept)
          ]
