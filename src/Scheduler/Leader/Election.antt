-- ===== src/Scheduler/Leader/Election.antt =====
-- Leader election over the in-memory store (chronon-scheduler/src/leader.rs).
use chronon.Base.{
  ℕ, ◌≤◌, ◌<◌, Option, none, some, Bool, true, false, [], String, ◌≡◌, refl, sym, subst, ◌≢◌, ◌⊎◌,
  inl, inr, Instant, arith, plus_seconds, Bool-cases, ltb, ◌&&◌, ◌==◌,
}
use chronon.Model.Coordination.{SchedulerLeader}
use chronon.Mem.State.{Store, leader_row_id}
use chronon.Mem.Port.{mem_store}
use chronon.Mem.Coordinator.{
  try_acquire_leader, renew_leader_lease, get_leader, is_held_by_other, renew_row,
}
use chronon.Scheduler.Leader
use chronon.Scheduler.Leader.{
  LeaderElector, PartitionAssigner, after_confirm, after_campaign, holds_lease, step_once,
  am_i_leader, upto, assign_all_embedded, release_all,
}

abbrev pub elector : String → Bool → LeaderElector
elector me flag = record { instance_id = me; is_leader = flag }

-- A coordinator owns all partitions while it takes itself for the leader, and none otherwise.
abbrev pub OwnsAsLeader : LeaderElector → PartitionAssigner → Type 0
OwnsAsLeader e a =
    ((e.is_leader ≡ true) × (a.owned ≡ upto a.num_partitions))
    ⊎ ((e.is_leader ≡ false) × (a.owned ≡ []))

module _ {V : Type 0} (ttl : ℕ) (utc : ℕ → Instant) (me : String) (a : PartitionAssigner)
    (s : Store V) where
  abbrev pub stepped : Bool → (LeaderElector × PartitionAssigner) × Store V
  stepped flag = step_once (mem_store V) ttl utc (elector me flag) a s

  leads_eq : stepped true ≡ (
    after_confirm (elector me true) a (holds_lease me (utc 2) (renew_row (utc 0) me ttl s.leader)),
    record s { leader = renew_row (utc 0) me ttl s.leader },
  )
  unfolding step_once am_i_leader Leader.renew_leader_lease renew_leader_lease get_leader
  leads_eq = refl

  abbrev pub acquired_row : SchedulerLeader
  acquired_row = record {
    leader_id = leader_row_id;
    leader_instance_id = me;
    leader_lease_until = plus_seconds (utc 0) ttl;
    last_heartbeat_at = utc 0;
  }

  stands_eq :
      ((is_held_by_other me (utc 0) s.leader ≡ true) × (stepped false ≡ ((elector me false, a), s)))
      ⊎ ((is_held_by_other me (utc 0) s.leader ≡ false)
          × (stepped false ≡ (
            (elector me true, assign_all_embedded a),
            record s { leader = some acquired_row },
          )))
  unfolding step_once Leader.try_acquire_leader try_acquire_leader after_campaign
  stands_eq = elim (Bool-cases (is_held_by_other me (utc 0) s.leader)) [
    | inl t ↦ inl (t, rw (t, step_once, try_acquire_leader))
    | inr f ↦ inr (f, rw (f, step_once, try_acquire_leader))
  ]

  -- It takes itself for the leader, owns all partitions and stands in a leader row that was live at
  -- a reading of the clock; or it does not, and owns none.
  abbrev pub Leads : (LeaderElector × PartitionAssigner) × Store V → Type 0
  Leads r =
      ((r.0.0.is_leader ≡ true)
        × (r.0.1.owned ≡ upto r.0.1.num_partitions)
        × (row : SchedulerLeader) × (r.1.leader ≡ some row)
        × (row.leader_instance_id ≡ me)
        × ((utc 0 < row.leader_lease_until) ⊎ (utc 2 < row.leader_lease_until)))
      ⊎ ((r.0.0.is_leader ≡ false) × (r.0.1.owned ≡ []))

  confirmed-Leads :
      (row : Option SchedulerLeader)
      → a.owned ≡ upto a.num_partitions
      → Leads (
        after_confirm (elector me true) a (holds_lease me (utc 2) row),
        record s { leader = row },
      )
  unfolding after_confirm holds_lease release_all
  confirmed-Leads none o = inr (refl, refl)
  confirmed-Leads (some row) o =
      elim (Bool-cases (ltb (utc 2) row.leader_lease_until && row.leader_instance_id == me)) [
        | inl t ↦ rw (t) (inl (refl, o, row, refl, ground arith, inr (ground arith)))
        | inr f ↦ rw (f) (inr (refl, refl))
      ]

  stands-Leads : 1 ≤ ttl → a.owned ≡ [] → Leads (stepped false)
  unfolding assign_all_embedded
  stands-Leads pos o = elim stands_eq [
    | inl (t, q) ↦ subst Leads (sym q) (inr (refl, o))
    | inr (f, q) ↦
        subst Leads (sym q) (inl (refl, refl, acquired_row, refl, refl, inl (omega arith)))
  ]

  -- A coordinator that owns all partitions while it takes itself for the leader, and none otherwise,
  -- does so after an election step, if the time to live is positive; and one that takes itself for
  -- the leader after the step stands in the leader row with a lease that ends after the first or
  -- the last reading of the clock in it.
  pub step_once-Leads :
      (flag : Bool) → 1 ≤ ttl → OwnsAsLeader (elector me flag) a → Leads (stepped flag)
  step_once-Leads true pos (inl (t, o)) =
      subst Leads (sym leads_eq) (confirmed-Leads (renew_row (utc 0) me ttl s.leader) o)
  step_once-Leads true pos (inr (f, o)) = ground (arith, f)
  step_once-Leads false pos (inl (t, o)) = ground (arith, t)
  step_once-Leads false pos (inr (f, o)) = stands-Leads pos o

  abbrev pub Excluded : (LeaderElector × PartitionAssigner) × Store V → Type 0
  Excluded r = (r.0.0.is_leader ≡ false) × (r.1.leader ≡ s.leader)

  module _ (row : SchedulerLeader) (held : s.leader ≡ some row)
      (other : row.leader_instance_id ≢ me) (live : utc 0 < row.leader_lease_until) where
    renew_rival : renew_row (utc 0) me ttl s.leader ≡ some row
    unfolding renew_row
    renew_rival = rw (held) (ground arith)

    confirm_rival :
        (after_confirm (elector me true) a (holds_lease me (utc 2) (some row))).0.is_leader ≡ false
    unfolding after_confirm holds_lease
    confirm_rival =
        let lost : (ltb (utc 2) row.leader_lease_until && row.leader_instance_id == me) ≡ false =
          ground arith in
        rw (lost) refl

    rival_holds : is_held_by_other me (utc 0) s.leader ≡ true
    unfolding is_held_by_other
    rival_holds = rw (held) (ground arith)

    -- While another instance holds a live lease at the first reading of the clock, the step of a
    -- coordinator leaves the leader row as it is, and the coordinator does not take itself for the
    -- leader after it, whether it did before or not.
    pub rival_excludes : (flag : Bool) → Excluded (stepped flag)
    rival_excludes true = subst Excluded (sym leads_eq) (rw (renew_rival) (confirm_rival, sym held))
    rival_excludes false = elim stands_eq [
      | inl (t, q) ↦ subst Excluded (sym q) (refl, refl)
      | inr (f, q) ↦ ground (arith, rival_holds)
    ]

  lapsed_free :
      (row : Option SchedulerLeader)
      → ((r : SchedulerLeader) → row ≡ some r → r.leader_lease_until ≤ utc 0)
      → is_held_by_other me (utc 0) row ≡ false
  unfolding is_held_by_other
  lapsed_free none h = refl
  lapsed_free (some r) h = ground (arith, h r refl)

  -- A coordinator that does not take itself for the leader becomes it in one step, with a lease of
  -- the time to live and all partitions, when the row is absent or its lease has lapsed.
  pub standby_takes_over :
      ((row : SchedulerLeader) → s.leader ≡ some row → row.leader_lease_until ≤ utc 0)
      → stepped false
        ≡ ((elector me true, assign_all_embedded a), record s { leader = some acquired_row })
  standby_takes_over h = elim stands_eq [
    | inl (t, q) ↦ ground (arith, lapsed_free s.leader h)
    | inr (f, q) ↦ q
  ]
