-- ===== src/Redis/Contract.antt =====
-- What the composite store asks of the Redis server and of the SQL store.
use chronon.Base.{
  ℕ, none, some, false, String, ◌≡◌, refl, Instant, Option-cases, inl, inr, arith, lookup,
}
use chronon.Model.Error.{ok}
use chronon.Model.Run.{Run}
use chronon.Mem.Port.{mem_store}
use chronon.Mem.State.{Store}
use chronon.Mem.Runs.{is_claimable, claim_run_by_id, get_run}
use chronon.Port.{SchedulerStore}
use chronon.Redis.Queue.{RedisServer}

-- `ZADD`: a success leaves the member in the set, and no call takes one out.
pub record ReadySet {Q : Type 0} (server : RedisServer Q) : Type 1 where
  pub Ready : Q → String → String → Type 0
  pub adds :
      (key : String) (score : ℕ) (id : String) (q : Q)
      → (server.zadd key score id q).0 ≡ ok tt
      → Ready (server.zadd key score id q).1 key id
  pub keeps :
      (key : String) (score : ℕ) (id : String) (q : Q) (other_key other : String)
      → Ready q other_key other
      → Ready (server.zadd key score id q).1 other_key other

-- Reading a run changes nothing, and a claim refuses no run that can be claimed.
pub record RunClaims {V S : Type 0} (sql : SchedulerStore V S) : Type 0 where
  pub reads : (utc : Instant) (run_id : String) (s : S) → (sql.get_run utc run_id s).1 ≡ s
  pub refuses :
      (utc : Instant) (run_id pool_id worker_id : String) (now : Instant) (ttl : ℕ) (s : S)
      (run : Run V)
      → (sql.claim_run_by_id utc run_id pool_id worker_id now ttl s).0 ≡ ok none
      → (sql.get_run utc run_id (sql.claim_run_by_id utc run_id pool_id worker_id now ttl s).1).0
        ≡ ok (some run)
      → is_claimable pool_id now run ≡ false

mem_refuses :
    {V : Type 0} (run_id pool_id worker_id : String) (now : Instant) (ttl : ℕ) (s : Store V)
    (run : Run V)
    → (claim_run_by_id run_id pool_id worker_id now ttl s).0 ≡ ok none
    → lookup run_id (claim_run_by_id run_id pool_id worker_id now ttl s).1.runs ≡ some run
    → is_claimable pool_id now run ≡ false
unfolding claim_run_by_id
mem_refuses run_id pool_id worker_id now ttl s run h at =
    elim (Option-cases (lookup run_id s.runs)) [
      | inl e ↦ cc (e, rw (e, claim_run_by_id) at at)
      | inr (r, e) ↦ ground arith
    ]

-- The in-memory store refuses no claim of a run that can be claimed.
pub mem_store-RunClaims : (V : Type 0) → RunClaims (mem_store V)
unfolding get_run
mem_store-RunClaims V = record {
  reads = λ utc run_id s. refl;
  refuses = λ utc run_id pool_id worker_id now ttl s run h at.
      mem_refuses run_id pool_id worker_id now ttl s run h (ground arith);
}
