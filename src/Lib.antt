-- ===== src/Lib.antt =====
-- A model of chronon, a scheduler that keeps jobs and runs in a shared store, and what it keeps to.
--
-- Coordinators own partitions of the jobs. A coordinator's tick asks the store which jobs in its
-- partitions are due, takes a tick claim on each, enqueues one run for it and stores the next fire.
-- Workers claim queued runs under a lease, renew it while they work and write the result; a
-- reclaim task puts runs whose lease has run out back into the queue. Where several coordinators
-- run, a leader row with a lease decides which of them owns the partitions. The service stores jobs
-- with a revision history and queues runs on request; events of the executor end runs, and a failed
-- run is tried again as its job's policy says. The HTTP API turns requests of administrators into calls
-- of the service.
--
-- The files and the code that they model:
--   Base, Base/*          numbers, texts, instants, association lists and lists
--   Model/Error           chronon-core/src/error.rs, and store calls as functions on the state
--   Model/Job, Status, Run, Coordination
--                         chronon-core/src/models: the rows and the life cycle of a run
--   Port                  chronon-core/src/store.rs: the trait `SchedulerStore` as a record
--   Mem/State, Jobs       chronon-backend-mem/src/store/mod.rs and jobs.rs
--   Mem/Runs              chronon-backend-mem/src/store/runs.rs
--   Mem/Claims            chronon-backend-mem/src/store/claims.rs
--   Mem/Coordinator, Port chronon-backend-mem/src/store/coordinator.rs and trait_impl.rs
--   Scheduler/Partitioning, Cron
--                         chronon-scheduler/src/partitioning.rs and cron.rs
--   Scheduler/Enqueue, Tick
--                         chronon-scheduler/src/tick_loop.rs
--   Scheduler/Leader      chronon-scheduler/src/leader.rs, and the owned set of
--                         partition_assigner.rs
--   Scheduler/Assigner    chronon-scheduler/src/partition_assigner.rs: the leases of the partitions
--   Runtime/Service       chronon-runtime/src/coordinator_service.rs
--   Runtime/Retry         chronon-runtime/src/retry.rs, the retry policy of
--                         chronon-core/src/models/job.rs and chronon-telemetry/src/log_capture.rs
--   Runtime/Events        chronon-runtime/src/events.rs
--   Runtime/Worker        chronon-runtime/src/worker.rs: a round of a worker slot, and the heartbeat
--   Sql/Names, Json, Columns, RunRow, JobRow and the other rows
--                         chronon-backend-sql-common/src/row
--   Redis/Queue           chronon-backend-redis/src/queue.rs
--   Redis/Claim, Composite
--                         chronon-backend-redis/src/composite/claim.rs and mod.rs, over any store
--   Redis/Contract        what the composite store asks of Redis and of the SQL store
--   Http/Response, Auth   chronon-axum/src/handlers_common.rs, auth.rs and state.rs
--   Http/Request          chronon-axum/src/dto.rs and chronon-core/src/actor_policy.rs
--   Http/Upsert, Jobs, Revisions
--                         chronon-axum/src/handlers.rs
--   Redact, Sanitize      chronon-core/src/redact.rs and sanitize.rs
--   Examples, Examples/*  runs of the model on small inputs
-- A folder below a module holds the proofs about it. A function bears the name that it has in the
-- code. A part of a long function that a proof speaks of has a name of its own.
--
-- A store call is a function from a state to a result and the next state; the lock that a call of
-- the in-memory store holds makes it one step. Deleting a job and finding one by its name take two
-- locks in turn: the definitions name what is done under each, and are about a call that no other
-- falls into. Calls of several hosts interleave as lists of calls. A panic and a script that never
-- ends are outcomes of a call.
-- What `Utc::now()` reads is an argument, the k-th reading of a function being `utc k`; fresh UUIDs,
-- the environment, `xxh64`, `serde_json`, `f64`, the numbers' texts, the Redis server, the rows of a
-- database driver, the scripts and the crates croner and chrono-tz are parameters. An instant is the
-- number of nanoseconds since 1970, and instants before 1970, the ends of chrono's range and negative
-- times to live are outside the model. A `HashMap` is an association list, whose order stands for the
-- order in which an iteration meets the entries. Most loops follow a list. The claim through Redis
-- makes at most 64 rounds, as the code does; the redaction of a text takes one round for each of its
-- characters at most, and as many are given.
--
-- Not modelled: the SQL text that the databases run, connections, the routing and decoding of HTTP
-- requests, macros, telemetry, the executor, the worker and coordinator loops that never end, and the
-- wiring of the runtime.
pub mod Base
pub mod Model
pub mod Port
pub mod Http
pub mod Mem
pub mod Scheduler
pub mod Sql
pub mod Redact
pub mod Sanitize
pub mod Redis
pub mod Runtime
pub mod Examples
