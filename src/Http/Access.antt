-- ===== src/Http/Access.antt =====
-- Who gets past the admin check: theorems on chronon-axum/src/auth.rs and state.rs.
use chronon.Base.{some, none, false, String, ◌≡◌, ◌⊎◌}
use chronon.Http.Auth.{AdminState, AdminAuth}

abbrev unverified : String
unverified = "admin auth required but no AdminAuth verifier configured"

module _ {P : Type 0} where
  -- Nothing forbids the request: the verifier lets it pass, or there is none and none is required.
  abbrev pub IsAllowed : AdminState P → P → Type 0
  IsAllowed state parts =
      ((auth : AdminAuth P) × (state.admin_auth ≡ some auth) × (auth parts ≡ none))
      ⊎ ((state.admin_auth ≡ none) × (state.require_admin_auth ≡ false))
