-- ===== src/Sql.antt =====
-- chronon-backend-sql-common/src/row: what the SQL stores write to a row and read from one.
pub mod Names
pub mod Json
pub mod Columns
pub mod RunRow
pub mod JobRow
pub mod WorkerRow
pub mod RevisionRow
pub mod ScriptRow
pub mod LeaderRow
pub mod PartitionRow
pub mod Parsing
pub mod Stored
