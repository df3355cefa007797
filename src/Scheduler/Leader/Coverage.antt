-- ===== src/Scheduler/Leader/Coverage.antt =====
-- The partitions of the leader and the buckets of the jobs (chronon-scheduler/src/leader.rs,
-- partition_assigner.rs and partitioning.rs).
use chronon.Base.{
  ℕ, zero, suc, ◌<◌, ◌++◌, Option, some, Bool, true, List, [], ◌∷◌, String, ◌≡◌, ◌⊎◌, inl, inr, pos,
  eqb_ℤ, any, arith, max, eqb, Bool-cases,
}
use chronon.Mem.Claims.{in_partitions}
use chronon.Scheduler.Partitioning.{
  partition_index_for_job_id, partition_hash_i64_for_job_id, num_partitions_from_env,
  partition_index_bound,
}
use chronon.Scheduler.Leader.{new_assigner, assign_all_embedded, upto}

any-snoc :
    (test : ℕ → Bool) (xs : List ℕ) (x : ℕ)
    → (any test xs ≡ true) ⊎ (test x ≡ true)
    → any test (xs ++ x ∷ []) ≡ true
any-snoc test [] x h = ground arith
any-snoc test (y ∷ ys) x h = ground (arith, any-snoc test ys x)

any-upto : (k n : ℕ) → k < n → any (λ p. eqb_ℤ (pos p) (pos k)) (upto n) ≡ true
unfolding upto
any-upto k zero h = absurd (omega arith)
any-upto k (suc n) h =
    any-snoc (λ p. eqb_ℤ (pos p) (pos k)) (upto n) n
      (elim (Bool-cases (eqb n k)) [
        | inl t ↦ inr (ground arith)
        | inr f ↦ inl (any-upto k n (ground arith))
      ])

-- A leader that has taken over all partitions owns the partition of every job, whatever the
-- environment sets the number of partitions to.
pub leader_owns_every_job :
    (read : String → Option ℕ) (xxh64 : String → ℕ) (job_id : String)
    → in_partitions
        (assign_all_embedded (new_assigner (num_partitions_from_env read))).owned
        (some (partition_hash_i64_for_job_id read xxh64 job_id))
      ≡ true
unfolding assign_all_embedded new_assigner partition_hash_i64_for_job_id
leader_owns_every_job read xxh64 job_id =
    any-upto (partition_index_for_job_id xxh64 job_id (num_partitions_from_env read))
      (max (num_partitions_from_env read) 1)
      (partition_index_bound xxh64 job_id (num_partitions_from_env read))
