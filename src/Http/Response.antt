-- ===== src/Http/Response.antt =====
-- chronon-axum/src/handlers_common.rs, and the messages of chronon-core/src/error.rs. Where the
-- rewriting of an error's text panics, the handler gives no answer: none.
use Prim.Native.String.{◌++◌ as append}
use chronon.Base.{Option, none, some, Bool, true, false, String}
use chronon.Sanitize.{safe_message}
use chronon.Model.Error.{
  Result, ok, err, ChrononError, script_not_found, job_not_found, run_not_found, invalid_cron,
  invalid_timezone, param_error, script_mismatch, job_name_taken, storage_error, identity, internal,
  internal_source,
}

-- The statuses that the API answers with.
pub data StatusCode : Type 0 where
  status_ok bad_request unauthorized not_found conflict internal_server_error : StatusCode

pub record ApiResponse (A : Type 0) : Type 0 where
  pub success : Bool
  pub data_field : Option A
  pub error : Option String

-- `Display`, as the `#[error]` attributes say.
unfoldable pub to_string : ChrononError → String
to_string (script_not_found s) = append "script not found: " s
to_string (job_not_found s) = append "job not found: " s
to_string (run_not_found s) = append "run not found: " s
to_string (invalid_cron s) = append "invalid cron expression: " s
to_string (invalid_timezone s) = append "invalid timezone: " s
to_string (param_error s) = append "parameter error: " s
to_string (script_mismatch expected actual job_name) = append "script mismatch for job '" (
    append job_name
      (append "': expected '" (append expected (append "', got '" (append actual "'")))))
to_string (job_name_taken job_name existing_job_id) =
    append "job name '"
      (append job_name (append "' is already used by job '" (append existing_job_id "'")))
to_string (storage_error s) = append "storage error: " s
to_string (identity s) = append "identity error: " s
to_string (internal s) = append "internal error: " s
to_string (internal_source s) = append "internal error: " s

unfoldable pub chronon_status : ChrononError → StatusCode
chronon_status (job_not_found _) = not_found
chronon_status (run_not_found _) = not_found
chronon_status (script_not_found _) = bad_request
chronon_status (invalid_cron _) = bad_request
chronon_status (invalid_timezone _) = bad_request
chronon_status (param_error _) = bad_request
chronon_status (identity _) = bad_request
chronon_status (script_mismatch _ _ _) = conflict
chronon_status (job_name_taken _ _) = conflict
chronon_status (storage_error _) = internal_server_error
chronon_status (internal _) = internal_server_error
chronon_status (internal_source _) = internal_server_error

-- A handler's answer.
abbrev pub Answer : Type 0 → Type 0
Answer A = StatusCode × ApiResponse A

module _ {A : Type 0} where
  abbrev pub api_ok : A → ApiResponse A
  api_ok a = record { success = true; data_field = some a; error = none }

  abbrev clean_err : Option String → Option (ApiResponse A)
  clean_err none = none
  clean_err (some message) =
      some (record { success = false; data_field = none; error = some message })

  unfoldable pub api_err : String → Option (ApiResponse A)
  unfolding safe_message
  api_err message = clean_err (safe_message message)

  abbrev with_status : StatusCode → Option (ApiResponse A) → Option (Answer A)
  with_status at none = none
  with_status at (some response) = some (at, response)

  -- `(status, Json(ApiResponse::err(message)))`
  unfoldable pub refuse : StatusCode → String → Option (Answer A)
  unfolding api_err
  refuse code message = with_status code (api_err message)

  abbrev pub accept : A → Option (Answer A)
  accept a = some (status_ok, api_ok a)

  unfoldable pub chronon_err : ChrononError → Option (Answer A)
  unfolding chronon_status to_string refuse
  chronon_err e = refuse (chronon_status e) (to_string e)

  -- The answer to a call of the coordinator.
  unfoldable pub respond : Result A → Option (Answer A)
  respond (ok a) = accept a
  respond (err e) = chronon_err e
