-- ===== src/Sql/Stored.antt =====
-- What is stored is read back: JSON columns.
pub mod Runs
pub mod Jobs
pub mod Others
use chronon.Base.{String, Option, none, some, ◌≡◌, refl}
use chronon.Model.Error.{ok}
use chronon.Sql.Json.{
  SerdeJson, ReadsBack, ReadsBackOpt, ◌>>=◌, encode_json, decode_json, encode_json_opt,
  decode_json_opt,
}

module _ {V : Type 0} (serde : SerdeJson V) where
  pub encode_json-Stores :
      (v : V)
      → ReadsBack serde v
      → (s : String) × (encode_json serde v ≡ ok s) × (decode_json serde s ≡ ok v)
  unfolding encode_json decode_json
  encode_json-Stores v reads = let (s, written, back) = reads in (s, rw written, rw back)

  pub encode_json_opt-Stores :
      (o : Option V)
      → ReadsBackOpt serde o
      → (s : Option String) × (encode_json_opt serde o ≡ ok s) × (decode_json_opt serde s ≡ ok o)
  unfolding encode_json_opt decode_json_opt
  encode_json_opt-Stores none reads = (none, refl, refl)
  encode_json_opt-Stores (some v) reads =
      let (s, written, back) = encode_json-Stores v reads in (some s, rw written, rw back)
