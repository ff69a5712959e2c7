-- ===== src/Integration/Coordinator.antt =====
-- custom_components/pi_manager/coordinator.py: one refresh of a host, and how it reports an error.
pub mod Reported
use ha_pi_manager_integratio.Prelude.{
  String, ◌==◌, Bool, true, false, Option, none, some, List, [], ◌∷◌, ◌++◌, Result, ok, err,
  has_prefix, if◌then◌else◌,
}
use ha_pi_manager_integratio.Prelude.Exec.{Exec, ◌>>=◌, pure, raise}
use ha_pi_manager_integratio.Errors.{
  PyError, Exc, pi_manager, connection, authentication, fingerprint_unavailable, helper_protocol,
  service_name, update_already_running, helper_incompatible, fingerprint_mismatch, discovery,
  bootstrap, value_error, os_error, overflow_error, index_error, is_pi_manager_error, message,
}
use ha_pi_manager_integratio.Models.{HostStatus, UpdateInfo}
use ha_pi_manager_integratio.Integration.Runtime.State.{Python, Runtime, Io}
use ha_pi_manager_integratio.Integration.Runtime.Operations.{
  async_status, async_check_updates_if_due,
}
use ha_pi_manager_integratio.Integration.Upgrade.{Codec, Material, async_upgrade_if_needed}

-- The repair issues that are created
pub data Issue : Type 0 where
  fingerprint_issue helper_issue : Issue

pub record Coordinator : Type 0 where
  pub runtime : Runtime
  pub last_error_category : Option String
  pub issues : List Issue

-- `UpdateFailed` with its text, or an exception that no clause catches
pub data Failure : Type 0 where
  update_failed : String → Failure
  uncaught : PyError → Failure

-- `error.__class__.__name__.replace("PiManager", "").lower()`
unfoldable pub class_name : PyError → String
class_name (pi_manager _) = "error"
class_name (connection _) = "connectionerror"
class_name (authentication _) = "authenticationerror"
class_name (fingerprint_unavailable _) = "hostfingerprintunavailable"
class_name (helper_protocol _) = "helperprotocolerror"
class_name (service_name _) = "servicenameerror"
class_name (update_already_running _) = "updatealreadyrunning"
class_name (helper_incompatible _) = "helperincompatibleerror"
class_name (fingerprint_mismatch _ _) = "hostfingerprintmismatch"
class_name (discovery _ _) = "hostdiscoveryerror"
class_name (bootstrap _ _) = "bootstraperror"
class_name (value_error _) = "valueerror"
class_name (os_error _) = "oserror"
class_name overflow_error = "overflowerror"
class_name index_error = "indexerror"

abbrev pub helper_text_or_class : PyError → String
helper_text_or_class e = if has_prefix "helper_" (message e) then message e else class_name e

-- `_category_from_error`; no class name is empty.
unfoldable pub category_from_error : PyError → String
unfolding message class_name
category_from_error (connection _) = "cannot_connect"
category_from_error e = helper_text_or_class e

-- `dataclasses.replace` of the three fields of a package check
unfoldable pub with_package_update : HostStatus → Option UpdateInfo → HostStatus
with_package_update status none = status
with_package_update status (some checked) = record status {
  updates = record status.updates {
    last_checked = checked.last_checked;
    available = checked.available;
    security = checked.security;
  };
}

-- The inner `try`: a `PiManagerError` of the package check is only logged.
unfoldable pub after_check : HostStatus → Exc (Option UpdateInfo) → Exc HostStatus
unfolding with_package_update is_pi_manager_error
after_check status (ok update) = ok (with_package_update status update)
after_check status (err e) = if is_pi_manager_error e then ok status else err e

unfoldable pub check_packages : Python → HostStatus → Io HostStatus
unfolding after_check
check_packages py status r =
    let (checked, r') = async_check_updates_if_due py r in (after_check status checked, r')

-- The body of the `try`; `material` is what the upgrade reads before it calls the helper.
unfoldable pub refresh : Python → Codec → Exc Material → Io HostStatus
unfolding check_packages
refresh py codec material = do
  status ← async_status py
  checked ← check_packages py status
  async_upgrade_if_needed py codec material checked

abbrev failing :
    Option String → List Issue → String → Coordinator → Result Failure HostStatus × Coordinator
failing category issues text c = (
  err (update_failed text),
  record c { last_error_category = category; issues = c.issues ++ issues },
)

-- The `except` clauses, in their order, and the end of a refresh that works
unfoldable pub report : Exc HostStatus → Exec Coordinator Failure HostStatus
unfolding category_from_error is_pi_manager_error
report (ok status) c = (ok status, record c { last_error_category = none })
report (err (fingerprint_mismatch _ _)) c =
    failing (some "fingerprint_changed") (fingerprint_issue ∷ []) "SSH host fingerprint changed" c
report (err (helper_incompatible _)) c =
    failing (some "helper_incompatible") (helper_issue ∷ []) "Helper upgrade requires attention" c
report (err e) c =
    if is_pi_manager_error e
    then failing (some (category_from_error e)) [] (category_from_error e) c
    else (err (uncaught e), c)

-- `_async_update_data`
unfoldable pub async_update_data :
    Python → Codec → Exc Material → Exec Coordinator Failure HostStatus
unfolding refresh report
async_update_data py codec material c =
    let (result, r) = refresh py codec material c.runtime in
    report result (record c { runtime = r })
