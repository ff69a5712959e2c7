-- ===== src/Contract/Parts.antt =====
-- The parts of a status document: filesystems, interfaces, services, updates and the package job.
use ha_pi_manager_integratio.Prelude.{
  ℕ, ℤ, pos, String, Bool, false, Option, none, some, ok, if◌then◌else◌,
}
use ha_pi_manager_integratio.Prelude.Results.{◌>>=◌}
use ha_pi_manager_integratio.Errors.{Exc}
use ha_pi_manager_integratio.Json.{Value, Fields, get}
use ha_pi_manager_integratio.Json.Floats.{Float, float_zero, trunc}
use ha_pi_manager_integratio.Models.{FilesystemInfo, NetworkInfo, ServiceInfo, UpdateInfo, JobInfo}
use ha_pi_manager_integratio.Contract.Fields.{
  mapping, string, optional_string, number, boolean, at_index,
}

-- `_number(…, integer=True, default=0)`, `_number(…, default=0.0)` and `_number(…, default=None)`
abbrev pub count : Value → String → Exc ℤ
count = number trunc (pos 0)

abbrev pub amount : Value → String → Exc Float
amount = number (λ x. x) float_zero

abbrev pub reading : Value → String → Exc (Option Float)
reading = number some none

unfoldable pub parse_update_info : Fields → Bool → Exc UpdateInfo
parse_update_info value include_reboot = do
  last_checked ← optional_string (get "last_checked" value) "updates.last_checked"
  available ← count (get "available" value) "updates.available"
  security ← count (get "security" value) "updates.security"
  reboot_required ←
      if include_reboot
      then boolean (get "reboot_required" value) "updates.reboot_required"
      else ok false
  ok (record {
    last_checked = last_checked;
    available = available;
    security = security;
    reboot_required = reboot_required;
  })

unfoldable pub parse_filesystem : Value → ℕ → Exc FilesystemInfo
parse_filesystem value index = do
  let name = at_index "filesystems" index
  item ← mapping value (name "")
  mount ← string (get "mount" item) (name ".mount") ""
  device ← string (get "device" item) (name ".device") "unknown"
  fstype ← string (get "fstype" item) (name ".fstype") "unknown"
  total_bytes ← count (get "total_bytes" item) (name ".total_bytes")
  used_bytes ← count (get "used_bytes" item) (name ".used_bytes")
  used_percent ← amount (get "used_percent" item) (name ".used_percent")
  readonly ← boolean (get "readonly" item) (name ".readonly")
  ok (record {
    mount = mount;
    device = device;
    fstype = fstype;
    total_bytes = total_bytes;
    used_bytes = used_bytes;
    used_percent = used_percent;
    readonly = readonly;
  })

unfoldable pub parse_network : Value → ℕ → Exc NetworkInfo
parse_network value index = do
  let name = at_index "network" index
  item ← mapping value (name "")
  interface ← string (get "interface" item) (name ".interface") ""
  rx_bytes ← count (get "rx_bytes" item) (name ".rx_bytes")
  tx_bytes ← count (get "tx_bytes" item) (name ".tx_bytes")
  operstate ← string (get "operstate" item) (name ".operstate") "unknown"
  ok (record {
    interface = interface;
    rx_bytes = rx_bytes;
    tx_bytes = tx_bytes;
    operstate = operstate;
  })

unfoldable pub parse_service : Value → ℕ → Exc ServiceInfo
parse_service value index = do
  let name = at_index "services" index
  item ← mapping value (name "")
  service ← string (get "name" item) (name ".name") ""
  active ← boolean (get "active" item) (name ".active")
  state ← string (get "state" item) (name ".state") "unknown"
  substate ← string (get "substate" item) (name ".substate") "unknown"
  ok (record { name = service; active = active; state = state; substate = substate })

unfoldable pub parse_job : Value → Exc JobInfo
parse_job value = do
  item ← mapping value "job"
  job_id ← string (get "id" item) "job.id" ""
  job_type ← string (get "type" item) "job.type" ""
  state ← string (get "state" item) "job.state" ""
  started_at ← optional_string (get "started_at" item) "job.started_at"
  finished_at ← optional_string (get "finished_at" item) "job.finished_at"
  exit_code ← number (λ x. some (trunc x)) none (get "exit_code" item) "job.exit_code"
  summary ← optional_string (get "summary" item) "job.summary"
  ok (record {
    job_id = job_id;
    job_type = job_type;
    state = state;
    started_at = started_at;
    finished_at = finished_at;
    exit_code = exit_code;
    summary = summary;
  })
