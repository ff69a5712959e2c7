-- ===== src/Contract/Status.antt =====
-- `parse_json_response`, `parse_status` and `parse_update_response`.
use ha_pi_manager_integratio.Prelude.{
  ℕ, ◌*◌, String, Bool, true, false, ◌&&◌, ok, err, ltb, leb, str_len, all_chars, is_hex,
  if◌then◌else◌,
}
use ha_pi_manager_integratio.Prelude.Results.{◌>>=◌, ◌>>◌, require}
use ha_pi_manager_integratio.Errors.{Exc, helper_protocol, value_error}
use ha_pi_manager_integratio.Json.{
  Loaded, decoded, malformed, too_long, list, dict, nil, Fields, get, get_or, is_nat,
}
use ha_pi_manager_integratio.Models.{HostStatus, UpdateInfo, MachineInfo, CpuInfo, MemoryInfo}
use ha_pi_manager_integratio.Contract.Fields.{mapping, string, parse_each}
use ha_pi_manager_integratio.Contract.Parts.{
  count, amount, reading, parse_filesystem, parse_network, parse_service, parse_job,
  parse_update_info,
}
use ha_pi_manager_integratio.Contract.Maintenance.{bounded_list, unless_null, parse_maintenance}

-- `_MACHINE_ID.fullmatch`: 16 to 128 hexadecimal digits
unfoldable pub is_machine_id : String → Bool
is_machine_id text = all_chars is_hex text && leb 16 (str_len text) && leb (str_len text) 128

abbrev pub schema_version : ℕ
schema_version = 1

abbrev pub max_command_output : ℕ
max_command_output = 256 * 1024

unfoldable pub parse_machine : Fields → Exc MachineInfo
parse_machine data' = do
  machine_id ← string (get "machine_id" data') "machine.machine_id" ""
  require (is_machine_id machine_id) (helper_protocol "helper_machine_id_invalid")
  hostname ← string (get "hostname" data') "machine.hostname" ""
  model ← string (get "model" data') "machine.model" "Unknown"
  os ← string (get "os" data') "machine.os" "Unknown"
  kernel ← string (get "kernel" data') "machine.kernel" "Unknown"
  arch ← string (get "arch" data') "machine.arch" "Unknown"
  uptime_seconds ← amount (get "uptime_seconds" data') "machine.uptime_seconds"
  ok (record {
    machine_id = machine_id;
    hostname = hostname;
    model = model;
    os = os;
    kernel = kernel;
    arch = arch;
    uptime_seconds = uptime_seconds;
  })

unfoldable pub parse_cpu : Fields → Exc CpuInfo
parse_cpu data' = do
  usage_percent ← reading (get "usage_percent" data') "cpu.usage_percent"
  temperature_c ← reading (get "temperature_c" data') "cpu.temperature_c"
  load_1 ← reading (get "load_1" data') "cpu.load_1"
  load_5 ← reading (get "load_5" data') "cpu.load_5"
  load_15 ← reading (get "load_15" data') "cpu.load_15"
  ok (record {
    usage_percent = usage_percent;
    temperature_c = temperature_c;
    load_1 = load_1;
    load_5 = load_5;
    load_15 = load_15;
  })

unfoldable pub parse_memory : Fields → Exc MemoryInfo
parse_memory data' = do
  total_bytes ← count (get "total_bytes" data') "memory.total_bytes"
  used_bytes ← count (get "used_bytes" data') "memory.used_bytes"
  used_percent ← amount (get "used_percent" data') "memory.used_percent"
  ok (record { total_bytes = total_bytes; used_bytes = used_bytes; used_percent = used_percent })

unfoldable pub parse_status : Fields → Exc HostStatus
parse_status payload = do
  require (is_nat (get "schema_version" payload) schema_version)
      (helper_protocol "helper_schema_unsupported")
  machine_data ← mapping (get "machine" payload) "machine"
  cpu_data ← mapping (get "cpu" payload) "cpu"
  memory_data ← mapping (get "memory" payload) "memory"
  updates_data ← mapping (get "updates" payload) "updates"
  machine ← parse_machine machine_data
  cpu ← parse_cpu cpu_data
  memory ← parse_memory memory_data
  filesystem_values ←
      bounded_list 512 "helper_filesystems_invalid" (get_or (list nil) "filesystems" payload)
  filesystems ← parse_each parse_filesystem 0 filesystem_values
  network_values ← bounded_list 256 "helper_network_invalid" (get_or (list nil) "network" payload)
  network ← parse_each parse_network 0 network_values
  service_values ← bounded_list 256 "helper_services_invalid" (get_or (list nil) "services" payload)
  services ← parse_each parse_service 0 service_values
  job ← unless_null parse_job (get "job" payload)
  maintenance ← parse_maintenance (get "maintenance" payload)
  agent_version ← string (get "agent_version" payload) "agent_version" "unknown"
  updates ← parse_update_info updates_data true
  policy_version ← string (get "policy_version" payload) "policy_version" "unknown"
  ok (record {
    schema_version = schema_version;
    agent_version = agent_version;
    machine = machine;
    cpu = cpu;
    memory = memory;
    filesystems = filesystems;
    network = network;
    updates = updates;
    services = services;
    job = job;
    maintenance = maintenance;
    policy_version = policy_version;
  })

unfoldable pub parse_update_response : Fields → Exc UpdateInfo
parse_update_response payload = do
  require (is_nat (get "schema_version" payload) schema_version)
      (helper_protocol "helper_schema_unsupported")
  updates ← mapping (get "updates" payload) "updates"
  parse_update_info updates false

-- `parse_json_response`, over the standard library's decoder and the size of a text in UTF-8; only a
-- `JSONDecodeError` is caught.
module _ (loads : String → Loaded) (utf8_size : String → ℕ) where
  object_of : Loaded → Exc Fields
  object_of (too_long text) = err (value_error text)
  object_of malformed = err (helper_protocol "helper_invalid_json")
  object_of (decoded (dict payload)) = ok payload
  object_of (decoded _) = err (helper_protocol "helper_response_not_object")

  unfoldable pub parse_json_response : String → Exc Fields
  unfolding object_of
  parse_json_response stdout =
      if ltb max_command_output (utf8_size stdout)
      then err (helper_protocol "helper_response_too_large")
      else object_of (loads stdout)
