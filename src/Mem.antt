-- ===== src/Mem.antt =====
-- chronon-backend-mem: the in-memory `SchedulerStore`.
pub mod State
pub mod Jobs
pub mod Runs
pub mod Claims
pub mod Coordinator
pub mod Port
