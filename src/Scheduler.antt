-- ===== src/Scheduler.antt =====
-- chronon-scheduler: partitions, cron, the coordinator tick and leader election.
pub mod Partitioning
pub mod Cron
pub mod Enqueue
pub mod Tick
pub mod Leader
pub mod Assigner
