-- ===== src/Scheduler/Partitioning.antt =====
-- chronon-scheduler/src/partitioning.rs: partition bucketing, pools and the tuning read from the
-- environment. The hash `xxh64` and the environment are parameters: `read name` is the value of the
-- variable, parsed as a number of the type in question.
use chronon.Base.{
  ℕ, ◌%◌, ◌≤◌, ◌<◌, max, Option, none, some, String, ℤ, pos, arith, leb, get_or, trim,
  is_empty_text, if◌then◌else◌,
}
use chronon.Model.Job.{Job}

-- xxhash with seed 0, a number below 2 ^ 64.
unfoldable pub partition_index_for_job_id : (String → ℕ) → String → ℕ → ℕ
partition_index_for_job_id xxh64 job_id num_partitions = xxh64 job_id % max num_partitions 1

abbrev pub default_pool : String
default_pool = "general"

non_empty : String → Option String
non_empty s = if is_empty_text s then none else some s

unfoldable pub job_execution_pool_id : {V : Type 0} → Job V → String
unfolding non_empty
job_execution_pool_id job = elim job.pool [
  | none ↦ default_pool
  | some s ↦ get_or (non_empty (trim s)) default_pool
]

-- `.filter(|&n| n >= 1).unwrap_or(default)`
unfoldable pub positive_or : Option ℕ → ℕ → ℕ
positive_or none default = default
positive_or (some n) default = if leb 1 n then n else default

module _ (read : String → Option ℕ) where
  unfoldable pub num_partitions_from_env : ℕ
  num_partitions_from_env = positive_or (read "CHRONON_NUM_PARTITIONS") 64

  unfoldable pub tick_interval_ms_from_env : ℕ
  tick_interval_ms_from_env = positive_or (read "CHRONON_TICK_INTERVAL_MS") 250

  unfoldable pub tick_batch_limit_from_env : ℕ
  tick_batch_limit_from_env = positive_or (read "CHRONON_TICK_BATCH_LIMIT") 500

  unfoldable pub job_claim_lease_ttl_secs : ℕ
  job_claim_lease_ttl_secs = positive_or (read "CHRONON_JOB_CLAIM_LEASE_TTL_S") 5

  unfoldable pub partition_lease_ttl_secs : ℕ
  partition_lease_ttl_secs = positive_or (read "CHRONON_PARTITION_LEASE_TTL_S") 30

  unfoldable pub partition_lease_renew_interval_secs : ℕ
  partition_lease_renew_interval_secs = positive_or (read "CHRONON_PARTITION_LEASE_RENEW_S") 5

  unfoldable pub run_worker_lease_ttl_secs : ℕ
  run_worker_lease_ttl_secs = positive_or (read "CHRONON_RUN_LEASE_TTL_S") 300

  unfoldable pub run_worker_lease_renew_secs : ℕ
  run_worker_lease_renew_secs = positive_or (read "CHRONON_RUN_LEASE_RENEW_S") 1

  unfoldable pub worker_concurrency_from_env : ℕ
  worker_concurrency_from_env = positive_or (read "CHRONON_WORKER_CONCURRENCY") 4

  unfoldable pub leader_ttl_secs_from_env : ℕ
  leader_ttl_secs_from_env = positive_or (read "CHRONON_LEADER_TTL_S") 30

  unfoldable pub leader_renew_interval_secs_from_env : ℕ
  leader_renew_interval_secs_from_env = positive_or (read "CHRONON_LEADER_RENEW_S") 5

  unfoldable pub partition_hash_i64_for_job_id : (String → ℕ) → String → ℤ
  partition_hash_i64_for_job_id xxh64 job_id =
      pos (partition_index_for_job_id xxh64 job_id num_partitions_from_env)

  pub positive_or_pos : (o : Option ℕ) (default : ℕ) → 1 ≤ default → 1 ≤ positive_or o default
  unfolding positive_or
  positive_or_pos none default h = h
  positive_or_pos (some n) default h = ground arith

-- A job's partition is one of the partitions, also where none are asked for.
pub partition_index_bound :
    (xxh64 : String → ℕ) (job_id : String) (n : ℕ)
    → partition_index_for_job_id xxh64 job_id n < max n 1
unfolding partition_index_for_job_id
partition_index_bound xxh64 job_id n = grind arith
