-- ===== src/Http/Auth.antt =====
-- chronon-axum/src/auth.rs and state.rs: who may call the API. A verifier is the host's, a function
-- of the request `P`, but for the two of the crate.
use chronon.Base.{
  Option, none, some, Bool, false, ◌&&◌, ◌||◌, String, ◌==◌, trim, is_none, if◌then◌else◌,
}
use chronon.Model.Error.{Result, ok, err, internal}
use chronon.Http.Response.{Answer, unauthorized}

-- No message: the request is authorised.
abbrev pub AdminAuth : Type 0 → Type 0
AdminAuth P = P → Option String

-- The fields of the state that the extractor reads.
pub record AdminState (P : Type 0) : Type 0 where
  pub admin_auth : Option (AdminAuth P)
  pub require_admin_auth : Bool

-- `lower` is `str::to_ascii_lowercase`.
unfoldable pub require_admin_auth_from_env : (String → String) → Option String → Bool
require_admin_auth_from_env lower none = false
require_admin_auth_from_env lower (some v) =
    let v = lower (trim v) in v == "1" || v == "true" || v == "yes"

abbrev pub unauthorized_answer : {A : Type 0} → String → Answer A
unauthorized_answer message =
    (unauthorized, record { success = false; data_field = none; error = some message })

module _ {P : Type 0} where
  -- The message of the refusal, if there is one.
  unfoldable pub require_admin : AdminState P → P → Option String
  require_admin state parts = elim state.admin_auth [
    | some auth ↦ auth parts
    | none ↦
        if state.require_admin_auth
        then some "admin auth required but no AdminAuth verifier configured"
        else none
  ]

  unfoldable pub allow_all : AdminAuth P
  allow_all parts = none

  -- `header` reads `x-chronon-admin-token`, where it is text.
  unfoldable pub static_token : (P → Option String) → String → AdminAuth P
  static_token header token parts = elim (header parts) [
    | none ↦ some "missing or invalid x-chronon-admin-token"
    | some got ↦ if got == token then none else some "missing or invalid x-chronon-admin-token"
  ]

  unfoldable pub build : AdminState P → Result (AdminState P)
  build builder =
      if builder.require_admin_auth && is_none builder.admin_auth
      then err
          (internal "CHRONON_REQUIRE_ADMIN_AUTH is set but no AdminAuth verifier was configured")
      else ok builder

  -- A handler behind the extractor: it runs, and may change the state, only where it is let through.
  unfoldable pub guarded :
      {S A : Type 0} → AdminState P → P → (S → Option (Answer A) × S) → S → Option (Answer A) × S
  unfolding require_admin
  guarded state parts handler s = elim (require_admin state parts) [
    | none ↦ handler s
    | some message ↦ (some (unauthorized_answer message), s)
  ]
