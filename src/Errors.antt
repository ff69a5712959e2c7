-- ===== src/Errors.antt =====
-- custom_components/pi_manager/errors.py, with the built-in exceptions that the integration meets.
use ha_pi_manager_integratio.Prelude.{String, Bool, true, false, Option, Result}

pub data PyError : Type 0 where
  pi_manager connection authentication fingerprint_unavailable : String → PyError
  helper_protocol service_name update_already_running helper_incompatible : String → PyError
  fingerprint_mismatch : Option String → Option String → PyError
  discovery bootstrap : String → String → PyError
  value_error os_error : String → PyError
  overflow_error index_error : PyError

abbrev pub Exc : Type 0 → Type 0
Exc = Result PyError

-- `isinstance(err, PiManagerError)`
unfoldable pub is_pi_manager_error : PyError → Bool
is_pi_manager_error (value_error _) = false
is_pi_manager_error (os_error _) = false
is_pi_manager_error overflow_error = false
is_pi_manager_error index_error = false
is_pi_manager_error _ = true

-- `isinstance(err, (OSError, PiManagerError, ValueError))`; `OverflowError` and `IndexError` are none.
unfoldable pub is_os_or_value_or_pi_manager_error : PyError → Bool
is_os_or_value_or_pi_manager_error overflow_error = false
is_os_or_value_or_pi_manager_error index_error = false
is_os_or_value_or_pi_manager_error _ = true

-- `str(err)`
unfoldable pub message : PyError → String
message (pi_manager text) = text
message (connection text) = text
message (authentication text) = text
message (fingerprint_unavailable text) = text
message (helper_protocol text) = text
message (service_name text) = text
message (update_already_running text) = text
message (helper_incompatible text) = text
message (fingerprint_mismatch _ _) =
    "The SSH host fingerprint does not match the trusted fingerprint"
message (discovery category _) = category
message (bootstrap stage _) = stage
message (value_error text) = text
message (os_error text) = text
message overflow_error = "int too large to convert to float"
message index_error = "list index out of range"
