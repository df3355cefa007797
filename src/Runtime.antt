-- ===== src/Runtime.antt =====
-- chronon-runtime: the coordinator service, and what becomes of the runs that were executed.
pub mod Service
pub mod Retry
pub mod Events
pub mod Worker
