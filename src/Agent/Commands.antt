-- ===== src/Agent/Commands.antt =====
-- The commands that the helper may start.
use ha_pi_manager_integratio.Prelude.{String, ◌<>◌, ◌≡◌, true, some, List, [], ◌∷◌}
use ha_pi_manager_integratio.Agent.Constants.{
  package_job_commands, package_preview_commands, lookup, has_key,
}
use ha_pi_manager_integratio.Agent.Names.{service_name_valid, matches_job_unit}

-- The fixed commands, those whose one variable argument is a valid service name or a job unit, and the
-- start of a worker for a job of the table, under a unit that the helper names itself.
pub data Allowed : List String → Type 0 where
  refresh : Allowed ("/usr/bin/apt-get" ∷ "update" ∷ "-q" ∷ [])
  simulate : Allowed ("/usr/bin/apt-get" ∷ "-s" ∷ "-q" ∷ "upgrade" ∷ [])
  preview :
      (operation : String) (argv : List String)
      → lookup operation package_preview_commands ≡ some argv
      → Allowed argv
  job :
      (type : String) (argv : List String)
      → lookup type package_job_commands ≡ some argv
      → Allowed argv
  worker :
      (identifier type : String)
      → has_key type package_job_commands ≡ true
      → Allowed (
          "/usr/bin/systemd-run"
          ∷ "--quiet"
          ∷ "--no-block"
          ∷ ("--unit=" <> ("pi-manager-job-" <> identifier))
          ∷ "--property=Type=oneshot"
          ∷ "/usr/local/sbin/pi-managerctl"
          ∷ "job-worker"
          ∷ type
          ∷ [])
  audit : Allowed ("/usr/bin/dpkg" ∷ "--audit" ∷ [])
  check : Allowed ("/usr/bin/apt-get" ∷ "check" ∷ [])
  holds : Allowed ("/usr/bin/apt-mark" ∷ "showhold" ∷ [])
  failed : Allowed (
      "/bin/systemctl" ∷ "list-units" ∷ "--failed" ∷ "--type=service" ∷ "--no-legend" ∷ "--no-pager"
      ∷ [])
  show_job :
      (unit : String)
      → matches_job_unit unit ≡ true
      → Allowed (
          "/bin/systemctl" ∷ "show" ∷ unit ∷ "--property=ActiveState,SubState,ExecMainStatus"
          ∷ "--no-page" ∷ [])
  show_service :
      (name : String)
      → service_name_valid name ≡ true
      → Allowed
          ("/bin/systemctl" ∷ "show" ∷ name ∷ "--property=ActiveState,SubState" ∷ "--no-page" ∷ [])
  show_loaded :
      (name : String)
      → service_name_valid name ≡ true
      → Allowed ("/bin/systemctl" ∷ "show" ∷ name ∷ "--property=LoadState" ∷ "--no-page" ∷ [])
  show_tailscale : Allowed (
      "/bin/systemctl" ∷ "show" ∷ "tailscaled.service" ∷ "--property=LoadState,ActiveState,SubState"
      ∷ "--no-page" ∷ [])
  restart :
      (name : String)
      → service_name_valid name ≡ true
      → Allowed ("/bin/systemctl" ∷ "restart" ∷ name ∷ [])
  reboot : Allowed ("/bin/systemctl" ∷ "reboot" ∷ [])
  poweroff : Allowed ("/bin/systemctl" ∷ "poweroff" ∷ [])
  visudo :
      (name : String)
      → Allowed (
          "/usr/sbin/visudo" ∷ "-cf" ∷ ("/etc/sudoers.d/.pi-manager." <> (name <> ".upgrade")) ∷ [])
