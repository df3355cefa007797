-- ===== src/Sql/Json.antt =====
-- chronon-backend-sql-common/src/row/mod.rs: JSON columns. `serde_json` is a parameter: it writes a
-- value as text and reads a text, and may fail with a message.
use chronon.Base.{String, Option, none, some, ◌⊎◌, inl, inr, ◌≡◌}
use chronon.Model.Error.{Result, ok, err, param_error}

pub record SerdeJson (V : Type 0) : Type 0 where
  pub to_string : V → String ⊎ String
  pub from_str : String → String ⊎ V

-- The value is written, and is read back from its text. Not so for every value: without its feature
-- `float_roundtrip` the crate may read another float than was written, and it reads no text that nests
-- deeper than 128.
abbrev pub ReadsBack : {V : Type 0} → SerdeJson V → V → Type 0
ReadsBack serde v = (s : String) × (serde.to_string v ≡ inr s) × (serde.from_str s ≡ inr v)

abbrev pub ReadsBackOpt : {V : Type 0} → SerdeJson V → Option V → Type 0
ReadsBackOpt serde none = Unit {0}
ReadsBackOpt serde (some v) = ReadsBack serde v

-- `Result`'s `?`
infixl 5 ◌>>=◌
abbrev pub ◌>>=◌ {ℓ κ} : {A : Type ℓ} {B : Type κ} → Result A → (A → Result B) → Result B
ok a >>= f = f a
err e >>= f = err e

-- `From<serde_json::Error> for ChrononError`, under `?`.
abbrev pub from_serde {ℓ} : {A : Type ℓ} → String ⊎ A → Result A
from_serde (inl e) = err (param_error e)
from_serde (inr a) = ok a

module _ {V : Type 0} (serde : SerdeJson V) where
  unfoldable pub encode_json : V → Result String
  encode_json value = from_serde (serde.to_string value)

  unfoldable pub decode_json : String → Result V
  decode_json raw = from_serde (serde.from_str raw)

  unfoldable pub encode_json_opt : Option V → Result (Option String)
  encode_json_opt none = ok none
  encode_json_opt (some v) = encode_json v >>= λ s. ok (some s)

  unfoldable pub decode_json_opt : Option String → Result (Option V)
  decode_json_opt none = ok none
  decode_json_opt (some s) = decode_json s >>= λ v. ok (some v)
