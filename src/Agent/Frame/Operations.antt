-- ===== src/Agent/Frame/Operations.antt =====
-- The operations of the helper keep an invariant of the host.
use ha_pi_manager_integratio.Prelude.{String, Option-cases, List, [], ◌∷◌, inl, inr}
use ha_pi_manager_integratio.Json.{Fields}
use ha_pi_manager_integratio.Agent.Constants.{lookup, package_preview_commands}
use ha_pi_manager_integratio.Agent.Names.{service_name_valid}
use ha_pi_manager_integratio.Agent.World.{World}
use ha_pi_manager_integratio.Agent.Library.{Library}
use ha_pi_manager_integratio.Agent.Keeps.{Keeps, Keeps-bind, Keeps-bind_known, Keeps-bind-unless}
use ha_pi_manager_integratio.Agent.Commands.{
  Allowed, simulate, preview, audit, check, holds, failed, show_service, show_loaded, restart,
}
use ha_pi_manager_integratio.Agent.Frame.Steps.{Steps, frame_steps}
use ha_pi_manager_integratio.Agent.Frame.Handlers.{refresh_package_index-Keeps}
use ha_pi_manager_integratio.Agent.Services.{
  read_config, service_allowed, service_allowed-ok, service_status, handle_status, handle_validate,
  handle_restart,
}
use ha_pi_manager_integratio.Agent.Configure.{configure_services}
use ha_pi_manager_integratio.Agent.Maintenance.Query.{
  write_maintenance, check_updates, run_preview, preview_package, audit_packages,
  show_package_holds, failed_services,
}
use ha_pi_manager_integratio.Agent.Main.{power_action}

module _ {P : World → Type 0} (steps : Steps P) where
  pub read_config-Keeps : Keeps P read_config
  unfolding read_config
  read_config-Keeps = search frame_steps depth 8

  pub service_allowed-Keeps :
      (name : String) (services : List String) → Keeps P (service_allowed name services)
  unfolding service_allowed
  service_allowed-Keeps name services = search frame_steps

  pub service_status-Keeps :
      (name : String) (services : List String) → Keeps P (service_status name services)
  unfolding service_status
  service_status-Keeps name services =
      Keeps-bind_known _ _ (service_allowed-Keeps name services) λ _ w _ e.
        search (frame_steps, show_service name (service_allowed-ok name services w e).0) depth 8

  pub handle_restart-Keeps : (name : String) → Keeps P (handle_restart name)
  unfolding handle_restart
  handle_restart-Keeps name = Keeps-bind _ _ read_config-Keeps λ (_, services).
      Keeps-bind_known _ _ (service_allowed-Keeps name services) λ _ w _ e.
        search (frame_steps, restart name (service_allowed-ok name services w e).0) depth 8

  pub handle_status-Keeps : (name : String) → Keeps P (handle_status name)
  unfolding handle_status
  handle_status-Keeps name = search (frame_steps, read_config-Keeps, service_status-Keeps) depth 8

  pub handle_validate-Keeps : (name : String) → Keeps P (handle_validate name)
  unfolding handle_validate
  handle_validate-Keeps name = Keeps-bind _ _ read_config-Keeps λ _.
      Keeps-bind-unless (service_name_valid name) _ _
        λ e. search (frame_steps, show_loaded name e) depth 8

  pub configure_services-Keeps :
      (lib : Library) (encoded : String) → Keeps P (configure_services lib encoded)
  unfolding configure_services
  configure_services-Keeps lib encoded = search (frame_steps, read_config-Keeps) depth 16

  pub write_maintenance-Keeps :
      (key : String) (value : Fields) → Keeps P (write_maintenance key value)
  unfolding write_maintenance
  write_maintenance-Keeps key value = search frame_steps depth 8

  pub check_updates-Keeps : Keeps P check_updates
  unfolding check_updates
  check_updates-Keeps = search (frame_steps, refresh_package_index-Keeps, simulate) depth 16

  pub audit_packages-Keeps : Keeps P audit_packages
  unfolding audit_packages
  audit_packages-Keeps = search (frame_steps, write_maintenance-Keeps, audit, check) depth 16

  pub show_package_holds-Keeps : Keeps P show_package_holds
  unfolding show_package_holds
  show_package_holds-Keeps = search (frame_steps, write_maintenance-Keeps, holds) depth 16

  pub failed_services-Keeps : Keeps P failed_services
  unfolding failed_services
  failed_services-Keeps = search (frame_steps, write_maintenance-Keeps, failed) depth 16

  pub run_preview-Keeps :
      (operation : String) (command : List String)
      → Allowed command
      → Keeps P (run_preview operation command)
  unfolding run_preview
  run_preview-Keeps operation command a = search (frame_steps, refresh_package_index-Keeps) depth 24

  pub preview_package-Keeps : (operation : String) → Keeps P (preview_package operation)
  unfolding preview_package
  preview_package-Keeps operation =
      elim (Option-cases (lookup operation package_preview_commands)) [
        | inl missing ↦ rw (missing, preview_package) (search frame_steps)
        | inr (command, found) ↦
            rw (found, preview_package)
              (run_preview-Keeps operation command (preview operation command found))
      ]

  pub power_action-Keeps :
      (verb action : String)
      → Allowed ("/bin/systemctl" ∷ verb ∷ [])
      → Keeps P (power_action verb action)
  unfolding power_action
  power_action-Keeps verb action a = search frame_steps
