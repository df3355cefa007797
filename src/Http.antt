-- ===== src/Http.antt =====
-- chronon-axum/src: the HTTP API over the coordinator service.
pub mod Response
pub mod Auth
pub mod Request
pub mod Upsert
pub mod Jobs
pub mod Outcomes
pub mod External
pub mod Refusals
pub mod Access
pub mod Paging
pub mod Revisions
pub mod Redacted
