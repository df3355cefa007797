-- ===== src/Model.antt =====
-- chronon-core/src/models and error.rs: the data of the scheduler.
pub mod Error
pub mod Job
pub mod Status
pub mod Run
pub mod Coordination
