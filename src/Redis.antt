-- ===== src/Redis.antt =====
-- chronon-backend-redis/src: the ready queue in Redis, and the store that claims through it.
pub mod Queue
pub mod Composite
pub mod Claim
pub mod Contract
pub mod Reads
pub mod Ready
pub mod Grants
pub mod Reclaimed
