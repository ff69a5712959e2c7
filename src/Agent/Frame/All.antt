-- ===== src/Agent/Frame/All.antt =====
-- Every operation keeps what the steps, `configure_trust` and `upgrade_helper` keep.
use ha_pi_manager_integratio.Prelude.{String, ◌≡◌, refl}
use ha_pi_manager_integratio.Agent.World.{World}
use ha_pi_manager_integratio.Agent.Library.{Library}
use ha_pi_manager_integratio.Agent.Keeps.{Keeps, Keeps-bind}
use ha_pi_manager_integratio.Agent.Commands.{reboot, poweroff}
use ha_pi_manager_integratio.Agent.Frame.Steps.{Steps, frame_steps}
use ha_pi_manager_integratio.Agent.Frame.Handlers.{start_package_job-Keeps, run_package_job-Keeps}
use ha_pi_manager_integratio.Agent.Frame.Operations.{
  handle_status-Keeps, handle_validate-Keeps, handle_restart-Keeps, configure_services-Keeps,
  check_updates-Keeps, audit_packages-Keeps, show_package_holds-Keeps, failed_services-Keeps,
  preview_package-Keeps, power_action-Keeps,
}
use ha_pi_manager_integratio.Agent.Frame.Status.{status-Keeps}
use ha_pi_manager_integratio.Agent.Trust.{configure_trust}
use ha_pi_manager_integratio.Agent.Upgrade.{Request, upgrade_helper}
use ha_pi_manager_integratio.Agent.Main.{
  Operation, check_updates_op, upgrade_helper_op, handle, main,
}

ruleset operations = (
  frame_steps, start_package_job-Keeps, run_package_job-Keeps, handle_status-Keeps,
  handle_validate-Keeps, handle_restart-Keeps, configure_services-Keeps, check_updates-Keeps,
  audit_packages-Keeps, show_package_holds-Keeps, failed_services-Keeps, preview_package-Keeps,
  power_action-Keeps, status-Keeps, reboot, poweroff,
)

module _ {P : World → Type 0} (lib : Library) (steps : Steps P) where
  handle-Keeps :
      (operation : Operation)
      → ((secret : String) → Keeps P (configure_trust lib secret))
      → ((request : Request)
          → operation ≡ upgrade_helper_op request
          → Keeps P (upgrade_helper lib request))
      → Keeps P (handle lib operation)
  unfolding handle
  handle-Keeps check_updates_op trust upgrade = search operations
  handle-Keeps (upgrade_helper_op request) trust upgrade =
      Keeps-bind _ _ (upgrade request refl) λ _. search operations
  handle-Keeps _ trust upgrade = search operations

  -- An upgrade may use that it is the operation.
  pub main-Keeps :
      (operation : Operation)
      → ((secret : String) → Keeps P (configure_trust lib secret))
      → ((request : Request)
          → operation ≡ upgrade_helper_op request
          → Keeps P (upgrade_helper lib request))
      → Keeps P (main lib operation)
  unfolding main
  main-Keeps operation trust upgrade = record {
    at = λ w h. (handle-Keeps operation trust upgrade).at w h;
  }
