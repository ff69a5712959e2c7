-- ===== src/Models.antt =====
-- custom_components/pi_manager/models.py: the typed models of the JSON contract. A `float` field is
-- a `Float`, an `int` field a `ℤ`, a tuple a list.
use ha_pi_manager_integratio.Prelude.{ℕ, ℤ, String, Bool, List, [], Option, none, is_zero}
use ha_pi_manager_integratio.Json.Floats.{Float}

pub record MachineInfo : Type 0 where
  pub machine_id : String
  pub hostname : String
  pub model : String
  pub os : String
  pub kernel : String
  pub arch : String
  pub uptime_seconds : Float

pub record CpuInfo : Type 0 where
  pub usage_percent : Option Float
  pub temperature_c : Option Float
  pub load_1 : Option Float
  pub load_5 : Option Float
  pub load_15 : Option Float

pub record MemoryInfo : Type 0 where
  pub total_bytes : ℤ
  pub used_bytes : ℤ
  pub used_percent : Float

pub record FilesystemInfo : Type 0 where
  pub mount : String
  pub device : String
  pub fstype : String
  pub total_bytes : ℤ
  pub used_bytes : ℤ
  pub used_percent : Float
  pub readonly : Bool

pub record NetworkInfo : Type 0 where
  pub interface : String
  pub rx_bytes : ℤ
  pub tx_bytes : ℤ
  pub operstate : String

pub record UpdateInfo : Type 0 where
  pub last_checked : Option String
  pub available : ℤ
  pub security : ℤ
  pub reboot_required : Bool

pub record ServiceInfo : Type 0 where
  pub name : String
  pub active : Bool
  pub state : String
  pub substate : String

pub record JobInfo : Type 0 where
  pub job_id : String
  pub job_type : String
  pub state : String
  pub started_at : Option String
  pub finished_at : Option String
  pub exit_code : Option ℤ
  pub summary : Option String

pub record PackagePreviewInfo : Type 0 where
  pub operation : String
  pub last_checked : Option String
  pub upgraded : ℤ
  pub newly_installed : ℤ
  pub to_remove : ℤ
  pub not_upgraded : ℤ
  pub reboot_required : Bool
  pub summary : Option String

pub record PackageAuditInfo : Type 0 where
  pub last_checked : Option String
  pub healthy : Bool
  pub dpkg_issues : ℤ
  pub apt_healthy : Bool
  pub summary : Option String

pub record PackageHoldsInfo : Type 0 where
  pub last_checked : Option String
  pub packages : List String

pub record FailedServicesInfo : Type 0 where
  pub last_checked : Option String
  pub services : List String

pub record MaintenanceInfo : Type 0 where
  pub previews : List PackagePreviewInfo
  pub audit : Option PackageAuditInfo
  pub holds : Option PackageHoldsInfo
  pub failed_services : Option FailedServicesInfo

-- `MaintenanceInfo()`
abbrev pub no_maintenance : MaintenanceInfo
no_maintenance = record { previews = []; audit = none; holds = none; failed_services = none }

pub record HostStatus : Type 0 where
  pub schema_version : ℕ
  pub agent_version : String
  pub machine : MachineInfo
  pub cpu : CpuInfo
  pub memory : MemoryInfo
  pub filesystems : List FilesystemInfo
  pub network : List NetworkInfo
  pub updates : UpdateInfo
  pub services : List ServiceInfo
  pub job : Option JobInfo
  pub maintenance : MaintenanceInfo
  pub policy_version : String

pub record CommandResult : Type 0 where
  pub returncode : ℤ
  pub stdout : String
  pub stderr : String

-- `CommandResult.ok`
abbrev pub result_ok : CommandResult → Bool
result_ok r = is_zero r.returncode

pub record KeyMaterial : Type 0 where
  pub key_id : String
  pub private_key : String
  pub public_key : String
  pub upgrade_secret : String

pub record HostDiscovery : Type 0 where
  pub machine_id : String
  pub hostname : String
  pub os_name : String
  pub os_version : String
  pub architecture : String
  pub python_version : String
  pub systemd_version : String
  pub apt_version : String
  pub sudo_available : Bool
  pub helper_installed : Bool
  pub helper_version : Option String
  pub target_writable : Bool
  pub fingerprint : String
  pub raw_capabilities : List String

pub record BootstrapResult : Type 0 where
  pub machine_id : String
  pub key_id : String
  pub fingerprint : String
  pub helper_version : String
  pub changed_files : List String
