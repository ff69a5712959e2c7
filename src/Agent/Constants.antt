-- ===== src/Agent/Constants.antt =====
-- The constants of custom_components/pi_manager/remote/pi_manager_agent.py.
use ha_pi_manager_integratio.Prelude.{
  ℕ, ◌*◌, String, ◌==◌, Bool, true, false, Option, none, some, List, [], ◌∷◌, if◌then◌else◌,
}

-- `key in table`, `table[key]`
abbrev pub lookup : {A : Type 0} → String → List (String × A) → Option A
lookup key [] = none
lookup key ((k, a) ∷ table) = if k == key then some a else lookup key table

abbrev pub has_key : {A : Type 0} → String → List (String × A) → Bool
has_key key table = elim (lookup key table) [ none ↦ false | some _ ↦ true ]

abbrev pub agent_schema_version : ℕ
agent_schema_version = 1

abbrev pub max_json_bytes : ℕ
max_json_bytes = 256 * 1024

abbrev pub max_sudoers_bytes : ℕ
max_sudoers_bytes = 64 * 1024

abbrev pub remote_ctl_path : String
remote_ctl_path = "/usr/local/sbin/pi-managerctl"

abbrev pub package_job_commands : List (String × List String)
package_job_commands =
    ("upgrade", "/usr/bin/apt-get" ∷ "-y" ∷ "upgrade" ∷ [])
    ∷ ("dist-upgrade", "/usr/bin/apt-get" ∷ "-y" ∷ "dist-upgrade" ∷ [])
    ∷ ("configure-packages", "/usr/bin/dpkg" ∷ "--configure" ∷ "-a" ∷ [])
    ∷ ("repair-packages", "/usr/bin/apt-get" ∷ "-f" ∷ "-y" ∷ "install" ∷ [])
    ∷ ("autoremove", "/usr/bin/apt-get" ∷ "-y" ∷ "autoremove" ∷ [])
    ∷ ("autoclean", "/usr/bin/apt-get" ∷ "autoclean" ∷ [])
    ∷ ("clean-cache", "/usr/bin/apt-get" ∷ "clean" ∷ [])
    ∷ []

abbrev pub package_job_labels : List (String × String)
package_job_labels =
    ("upgrade", "Normal package upgrade")
    ∷ ("dist-upgrade", "Dependency-changing upgrade")
    ∷ ("configure-packages", "Package configuration")
    ∷ ("repair-packages", "Broken dependency repair")
    ∷ ("autoremove", "Unused dependency removal")
    ∷ ("autoclean", "Obsolete package cleanup")
    ∷ ("clean-cache", "Package cache cleanup")
    ∷ []

abbrev pub package_jobs_requiring_refresh : List String
package_jobs_requiring_refresh = "upgrade" ∷ "dist-upgrade" ∷ "repair-packages" ∷ "autoremove" ∷ []

abbrev pub package_preview_commands : List (String × List String)
package_preview_commands =
    ("preview-upgrade", "/usr/bin/apt-get" ∷ "-s" ∷ "-q" ∷ "upgrade" ∷ [])
    ∷ ("preview-dist-upgrade", "/usr/bin/apt-get" ∷ "-s" ∷ "-q" ∷ "dist-upgrade" ∷ [])
    ∷ ("preview-autoremove", "/usr/bin/apt-get" ∷ "-s" ∷ "-q" ∷ "autoremove" ∷ [])
    ∷ []

abbrev pub sudoers_policy_commands : List String
sudoers_policy_commands =
    "/usr/local/sbin/pi-managerctl status --json"
    ∷ "/usr/local/sbin/pi-managerctl check-updates --json"
    ∷ "/usr/local/sbin/pi-managerctl update --json" ∷ "/usr/local/sbin/pi-managerctl upgrade --json"
    ∷ "/usr/local/sbin/pi-managerctl dist-upgrade --json"
    ∷ "/usr/local/sbin/pi-managerctl preview-upgrade --json"
    ∷ "/usr/local/sbin/pi-managerctl preview-dist-upgrade --json"
    ∷ "/usr/local/sbin/pi-managerctl preview-autoremove --json"
    ∷ "/usr/local/sbin/pi-managerctl audit-packages --json"
    ∷ "/usr/local/sbin/pi-managerctl show-package-holds --json"
    ∷ "/usr/local/sbin/pi-managerctl failed-services --json"
    ∷ "/usr/local/sbin/pi-managerctl configure-packages --json"
    ∷ "/usr/local/sbin/pi-managerctl repair-packages --json"
    ∷ "/usr/local/sbin/pi-managerctl autoremove --json"
    ∷ "/usr/local/sbin/pi-managerctl autoclean --json"
    ∷ "/usr/local/sbin/pi-managerctl clean-cache --json"
    ∷ "/usr/local/sbin/pi-managerctl reboot --json"
    ∷ "/usr/local/sbin/pi-managerctl shutdown --json"
    ∷ "/usr/local/sbin/pi-managerctl service-status *"
    ∷ "/usr/local/sbin/pi-managerctl service-restart *"
    ∷ "/usr/local/sbin/pi-managerctl service-validate *"
    ∷ "/usr/local/sbin/pi-managerctl configure-services --json --services-json *"
    ∷ "/usr/local/sbin/pi-managerctl configure-trust --json --secret *"
    ∷ "/usr/local/sbin/pi-managerctl upgrade-helper --json --version * --agent * --ctl * --signature *"
    ∷ "/usr/local/sbin/pi-managerctl upgrade-helper --json --version * --agent * --ctl * --signature * --sudoers *"
    ∷ []
