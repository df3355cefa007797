-- ===== src/Redis/Queue.antt =====
-- chronon-backend-redis/src/queue.rs: one sorted set for each pool, a run's score its due time. The
-- server is a parameter, with its own state `Q`; a connection is there.
use Prim.Native.String.{◌++◌ as append}
use chronon.Base.{
  ℕ, ◌/◌, Option, none, some, Bool, List, [], ◌∷◌, String, eqb, Instant, nanos_per_milli,
  if◌then◌else◌,
}
use chronon.Model.Error.{Result, ok, Io, ◌>>=◌, pure, try_ok}

-- `ZADD key score member`, and the script that takes at most `count` members up to a score away.
-- Failures carry the error that `map_err` makes.
pub record RedisServer (Q : Type 0) : Type 0 where
  pub zadd : String → ℕ → String → Io Q (Result (Unit {0}))
  pub take_due : String → ℕ → ℕ → Io Q (Result (List String))

pub record RedisQueueLayer (Q : Type 0) : Type 0 where
  pub server : RedisServer Q
  pub key_prefix : String
  pub hash_tags : Bool

unfoldable pub format_ready_key : String → String → Bool → String
format_ready_key prefix pool_id hash_tags =
    if hash_tags
    then append prefix (append ":{" (append pool_id "}:ready"))
    else append prefix (append ":ready:" pool_id)

abbrev pub timestamp_millis : Instant → ℕ
timestamp_millis t = t / nanos_per_milli

abbrev first : List String → Option String
first [] = none
first (id ∷ ids) = some id

module _ {Q : Type 0} (redis : RedisQueueLayer Q) where
  abbrev pub ready_key : String → String
  ready_key pool_id = format_ready_key redis.key_prefix pool_id redis.hash_tags

  unfoldable pub enqueue_run : String → String → Instant → Io Q (Result (Unit {0}))
  enqueue_run pool_id run_id scheduled_for =
      redis.server.zadd (ready_key pool_id) (timestamp_millis scheduled_for) run_id

  unfoldable pub claim_next_run_ids : String → ℕ → Instant → Io Q (Result (List String))
  claim_next_run_ids pool_id count now =
      if eqb count 0
      then pure (ok [])
      else redis.server.take_due (ready_key pool_id) (timestamp_millis now) count

  unfoldable pub claim_next_run_id : String → Instant → Io Q (Result (Option String))
  claim_next_run_id pool_id now = do
    popped ← claim_next_run_ids pool_id 1 now
    try_ok popped λ ids. pure (ok (first ids))
