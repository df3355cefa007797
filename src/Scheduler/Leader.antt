-- ===== src/Scheduler/Leader.antt =====
-- chronon-scheduler/src/leader.rs, and the owned set of chronon-scheduler/src/partition_assigner.rs:
-- one election attempt of a coordinator. `utc k` is the k-th reading of the clock.
pub mod Election
pub mod Coverage
use chronon.Base.{
  ℕ, zero, suc, ◌+◌, Option, none, some, Bool, true, false, ◌&&◌, List, [], ◌∷◌, ◌++◌, String,
  Instant, ltb, ◌==◌, max, if◌then◌else◌,
}
use chronon.Model.Error.{Result, ok, err, Io, ◌>>=◌, ◌>>◌, pure, try_ok, ok_or}
use chronon.Model.Coordination.{SchedulerLeader}
use chronon.Port.{SchedulerStore}

-- `0..n`
unfoldable pub upto : ℕ → List ℕ
upto zero = []
upto (suc n) = upto n ++ n ∷ []

-- The assigner's view of the partitions that this coordinator owns.
pub record PartitionAssigner : Type 0 where
  pub num_partitions : ℕ
  pub owned : List ℕ

unfoldable pub new_assigner : ℕ → PartitionAssigner
new_assigner num_partitions = record { num_partitions = max num_partitions 1; owned = [] }

unfoldable pub assign_all_embedded : PartitionAssigner → PartitionAssigner
assign_all_embedded a = record a { owned = upto a.num_partitions }

unfoldable pub release_all : PartitionAssigner → PartitionAssigner
release_all a = record a { owned = [] }

pub record LeaderElector : Type 0 where
  pub instance_id : String
  pub is_leader : Bool

unfoldable pub new_elector : String → LeaderElector
new_elector instance_id = record { instance_id = instance_id; is_leader = false }

unfoldable pub holds_lease : String → Instant → Option SchedulerLeader → Bool
holds_lease instance_id now none = false
holds_lease instance_id now (some row) =
    ltb now row.leader_lease_until && row.leader_instance_id == instance_id

unfoldable pub after_confirm :
    LeaderElector → PartitionAssigner → Bool → LeaderElector × PartitionAssigner
after_confirm e a true = (e, a)
after_confirm e a false = (record e { is_leader = false }, release_all a)

unfoldable pub after_campaign :
    LeaderElector → PartitionAssigner → Result Bool → LeaderElector × PartitionAssigner
after_campaign e a (ok true) = (record e { is_leader = true }, assign_all_embedded a)
after_campaign e a (ok false) = (e, a)
after_campaign e a (err x) = (e, a)

-- `ttl` is `leader_ttl_secs_from_env()`.
module _ {V S : Type 0} (db : SchedulerStore V S) (ttl : ℕ) where
  unfoldable pub try_acquire_leader : Instant → String → Io S (Result Bool)
  try_acquire_leader utc instance_id = db.try_acquire_leader utc instance_id ttl

  unfoldable pub renew_leader_lease : Instant → String → Io S (Result (Unit {0}))
  renew_leader_lease utc instance_id = db.renew_leader_lease utc instance_id ttl

  -- The row is read at `utc`, the clock after it at `now`.
  unfoldable pub am_i_leader : Instant → Instant → String → Io S (Result Bool)
  unfolding holds_lease
  am_i_leader utc now instance_id = do
    leader ← db.get_leader utc
    try_ok leader λ row. pure (ok (holds_lease instance_id now row))

  unfoldable pub step_once :
      (ℕ → Instant) → LeaderElector → PartitionAssigner → Io S (LeaderElector × PartitionAssigner)
  unfolding after_confirm after_campaign
  step_once utc e a = elim e.is_leader [
    | true ↦ do
      renewed ← renew_leader_lease (utc 0) e.instance_id
      still ← am_i_leader (utc 1) (utc 2) e.instance_id
      pure (after_confirm e a (ok_or still false))
    | false ↦ do
      acquired ← try_acquire_leader (utc 0) e.instance_id
      pure (after_campaign e a acquired)
  ]
