-- ===== src/Sql/ScriptRow.antt =====
-- chronon-backend-sql-common/src/row/script.rs: a script as a SQL row, and back.
use chronon.Base.{String, Instant, ◌≡◌}
use chronon.Model.Error.{Result, ok}
use chronon.Model.Coordination.{Script}
use chronon.Sql.Columns.{SqlRow}
use chronon.Sql.Json.{SerdeJson, ◌>>=◌, encode_json, decode_json}

pub record ScriptRow : Type 0 where
  pub script_id : String
  pub script_name : String
  pub signature_json : String
  pub signature_hash : String
  pub created_at : Instant

module _ {V : Type 0} (serde : SerdeJson V) where
  unfoldable pub from_model : Script V → Result ScriptRow
  from_model script = do
    signature_json ← encode_json serde script.signature_json
    ok (record {
      script_id = script.script_id;
      script_name = script.script_name;
      signature_json = signature_json;
      signature_hash = script.signature_hash;
      created_at = script.created_at;
    })

  unfoldable pub to_model : ScriptRow → Result (Script V)
  to_model row = do
    signature_json ← decode_json serde row.signature_json
    ok (record {
      script_id = row.script_id;
      script_name = row.script_name;
      signature_json = signature_json;
      signature_hash = row.signature_hash;
      created_at = row.created_at;
    })

  unfoldable pub row_to_script : SqlRow → Result (Script V)
  row_to_script row = do
    script_id ← row.text "script_id"
    script_name ← row.text "script_name"
    signature_json ← row.text "signature_json"
    signature_hash ← row.text "signature_hash"
    created_at ← row.time "created_at"
    to_model (record {
      script_id = script_id;
      script_name = script_name;
      signature_json = signature_json;
      signature_hash = signature_hash;
      created_at = created_at;
    })

-- The row gives, in each column, what was bound to it.
pub record Holds (row : SqlRow) (r : ScriptRow) : Type 0 where
  pub script_id : row.text "script_id" ≡ ok r.script_id
  pub script_name : row.text "script_name" ≡ ok r.script_name
  pub signature_json : row.text "signature_json" ≡ ok r.signature_json
  pub signature_hash : row.text "signature_hash" ≡ ok r.signature_hash
  pub created_at : row.time "created_at" ≡ ok r.created_at
