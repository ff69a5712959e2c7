-- ===== src/Integration/Actions.antt =====
-- custom_components/pi_manager/actions.py: what a button or a service call asks for.
pub mod Guard
use ha_pi_manager_integratio.Prelude.{
  ℕ, ◌+◌, String, Bool, true, false, Option, none, some, List, [], ◌∷◌, ok, err, if◌then◌else◌,
}
use ha_pi_manager_integratio.Prelude.Exec.{Exec, ◌>>=◌, ◌>>◌, pure, gets, unless}
use ha_pi_manager_integratio.Errors.{PyError, pi_manager}
use ha_pi_manager_integratio.Json.{Value, bool, Fields, get_or}
use ha_pi_manager_integratio.Models.{UpdateInfo}
use ha_pi_manager_integratio.Integration.Runtime.State.{Python, Runtime, Io, truthy}
use ha_pi_manager_integratio.Integration.Runtime.Operations.{
  async_check_updates, run_operation, service_operation,
}

-- The functions of the module, by their names
pub data Action : Type 0 where
  refresh check_updates preview_upgrade preview_dist_upgrade preview_autoremove : Action
  audit_packages show_package_holds failed_services : Action
  install_updates dist_upgrade configure_packages repair_packages : Action
  autoremove autoclean clean_cache reboot shutdown : Action
  restart_service : String → Action

-- `runtime.coordinator.async_request_refresh()`
unfoldable pub request_refresh : Io (Unit {0})
request_refresh r = (ok tt, record r { refreshes = r.refreshes + 1 })

-- `_require_dangerous`
unfoldable pub require_dangerous : Io (Unit {0})
require_dangerous = do
  options ← gets (λ r. r.options)
  unless (truthy (get_or (bool false) "enable_dangerous_controls" options))
      (pi_manager "dangerous_controls_disabled")

module _ (py : Python) where
  unfoldable pub query_then_refresh : String → Io (Unit {0})
  query_then_refresh operation = do _ ← run_operation py operation; request_refresh

  unfoldable pub dangerous_then_refresh : String → Io (Unit {0})
  dangerous_then_refresh operation = do
    require_dangerous
    _ ← run_operation py operation
    request_refresh

  unfoldable pub dangerous_only : String → Io (Unit {0})
  dangerous_only operation = do require_dangerous; _ ← run_operation py operation; pure tt

  unfoldable pub perform : Action → Io (Unit {0})
  unfolding query_then_refresh dangerous_then_refresh dangerous_only
  perform refresh = request_refresh
  perform check_updates = do _ ← async_check_updates py; request_refresh
  perform preview_upgrade = query_then_refresh "preview-upgrade"
  perform preview_dist_upgrade = query_then_refresh "preview-dist-upgrade"
  perform preview_autoremove = query_then_refresh "preview-autoremove"
  perform audit_packages = query_then_refresh "audit-packages"
  perform show_package_holds = query_then_refresh "show-package-holds"
  perform failed_services = query_then_refresh "failed-services"
  perform install_updates = dangerous_then_refresh "update"
  perform dist_upgrade = dangerous_then_refresh "dist-upgrade"
  perform configure_packages = dangerous_then_refresh "configure-packages"
  perform repair_packages = dangerous_then_refresh "repair-packages"
  perform autoremove = dangerous_then_refresh "autoremove"
  perform autoclean = dangerous_then_refresh "autoclean"
  perform clean_cache = dangerous_then_refresh "clean-cache"
  perform reboot = dangerous_only "reboot"
  perform shutdown = dangerous_only "shutdown"
  perform (restart_service name) = do
    require_dangerous
    _ ← service_operation py "service-restart" name
    request_refresh
