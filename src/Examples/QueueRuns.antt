-- ===== src/Examples/QueueRuns.antt =====
-- The composite store, the partition leases and a worker's round on concrete stores.
use chronon.Base.{
  ℕ, true, false, ◌&&◌, List, [], ◌∷◌, String, ◌≡◌, refl, arith, any, filter, map, take, not, ◌==◌,
  lookup, text_discrete, Instant,
}
use chronon.Model.Error.{ok, Io, Result}
use chronon.Model.Run.{Run, for_job, new_run}
use chronon.Mem.Port.{mem_store}
use chronon.Mem.Runs.{
  claim, claim_run_by_id, get_run, is_claimable, reclaim_expired_run_leases, reclaim_entries,
  is_expired, requeue,
}
use chronon.Mem.State.{Store, new}
use chronon.Port.{claim_runs_by_ids}
use chronon.Redis.Claim
use chronon.Redis.Claim.{claim_one, run_pool_key, requeue_mismatch, requeue_row}
use chronon.Redis.Composite
use chronon.Redis.Contract.{ReadySet, mem_store-RunClaims}
use chronon.Redis.Queue.{RedisServer, RedisQueueLayer, enqueue_run, ready_key}
use chronon.Redis.Ready.{claim_one-InReady}
use chronon.Redis.Reclaimed.{reclaim_expired_run_leases-InReady}
use chronon.Examples.{at, queued_run}

-- Members with their keys, in the order of their scores.
abbrev Queue : Type 0
Queue = List (String × String)

abbrev server : RedisServer Queue
server = record {
  zadd = λ key score id q. (ok tt, (key, id) ∷ q);
  take_due = λ key score count q. (
    ok (take count (map (λ e. e.1) (filter (λ e. e.0 == key) q))),
    filter (λ e. not (e.0 == key)) q,
  );
}

abbrev redis : RedisQueueLayer Queue
redis = record { server = server; key_prefix = "chronon"; hash_tags = false }

server-ReadySet : ReadySet server
server-ReadySet = record {
  Ready = λ q key id. any (λ e. e.0 == key && e.1 == id) q ≡ true;
  adds = λ key score id q h. ground arith;
  keeps = λ key score id q other_key other h. ground arith;
}

abbrev many :
    Instant
    → List String
    → String
    → String
    → Instant
    → ℕ
    → Io (Store String) (Result (List (Run String)))
many = claim_runs_by_ids (mem_store String)

-- The run is due at 60 seconds.
abbrev waiting : Store String
waiting = record (new String) { runs = ("run-1", queued_run) ∷ [] }

-- Taken at 30 seconds, before the run is due.
claim_one-InReady_example :
    server-ReadySet.Ready
      (claim_one
        (mem_store String)
        many
        redis
        (at 30)
        "run-1"
        "general"
        "host-a"
        (at 30)
        300
        (waiting, [])).1.1
      (ready_key redis (run_pool_key queued_run.pool_id))
      queued_run.run_id
unfolding claim_one claim_run_by_id requeue_mismatch requeue_row enqueue_run get_run is_claimable
    new for_job new_run lookup text_discrete
claim_one-InReady_example =
    claim_one-InReady (mem_store String) many redis server-ReadySet (at 30)
      (mem_store-RunClaims String) "run-1" "general" "host-a" (at 30) 300 waiting [] queued_run refl
      refl refl

-- Two runs are due, and popped together.
abbrev second_run : Run String
second_run = record queued_run { run_id = "run-2" }

abbrev two_waiting : Store String
two_waiting = record (new String) { runs = ("run-1", queued_run) ∷ ("run-2", second_run) ∷ [] }

abbrev both_ready : Queue
both_ready = ("chronon:ready:general", "run-1") ∷ ("chronon:ready:general", "run-2") ∷ []

abbrev taken : Run String
taken = claim "host-a" (at 60) 300 queued_run

-- The lease ran out at 360 seconds.
abbrev lapsed : Store String
lapsed = record (new String) { runs = ("run-1", taken) ∷ [] }

abbrev requeued : Run String
requeued = requeue taken

reclaim_expired_run_leases-InReady_example :
    server-ReadySet.Ready
      (Composite.reclaim_expired_run_leases
        (mem_store String)
        many
        redis
        1
        (at 400)
        (at 400)
        (lapsed, [])).1.1
      (ready_key redis (run_pool_key requeued.pool_id))
      requeued.run_id
unfolding Composite.reclaim_expired_run_leases Composite.enqueue_reclaimed
    reclaim_expired_run_leases reclaim_entries is_expired requeue enqueue_run get_run claim new
    for_job new_run lookup text_discrete
reclaim_expired_run_leases-InReady_example =
    reclaim_expired_run_leases-InReady (mem_store String) many redis 1 server-ReadySet (at 400)
      (mem_store-RunClaims String) (at 400) lapsed [] ("run-1" ∷ []) "run-1" requeued refl refl refl
