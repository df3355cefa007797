-- ===== src/Sql/Columns.antt =====
-- A row that the database driver returns: each column by its name, as the type that the code asks
-- for. A field stands for `row.try_get(column).map_err(map_err)`, and fails with the mapped error.
use chronon.Base.{String, Option, Bool, ℤ, Instant}
use chronon.Model.Error.{Result}

pub record SqlRow : Type 0 where
  pub text : String → Result String
  pub text_opt : String → Result (Option String)
  pub time : String → Result Instant
  pub time_opt : String → Result (Option Instant)
  pub i32 : String → Result ℤ
  pub i32_opt : String → Result (Option ℤ)
  pub i64_opt : String → Result (Option ℤ)
  pub flag : String → Result Bool
