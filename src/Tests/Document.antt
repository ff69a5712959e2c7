-- ===== src/Tests/Document.antt =====
-- A status document.
use ha_pi_manager_integratio.Prelude.{pos, refl, false, none, []}
use ha_pi_manager_integratio.Prelude.Results.{◌>>=◌}
use ha_pi_manager_integratio.Json.{int, str, dict, Fields, end, field, is_nat}
use ha_pi_manager_integratio.Json.Floats.{float_zero, of_int, is_finite, is_negative, trunc}
use ha_pi_manager_integratio.Models.{HostStatus, no_maintenance}
use ha_pi_manager_integratio.Contract.Fields.{
  mapping, string, optional_string, number, checked, boolean, parse_each,
}
use ha_pi_manager_integratio.Contract.Parts.{parse_update_info}
use ha_pi_manager_integratio.Contract.Maintenance.{bounded_list, unless_null, parse_maintenance}
use ha_pi_manager_integratio.Contract.Status.{
  parse_status, parse_machine, is_machine_id, parse_cpu, parse_memory,
}
use ha_pi_manager_integratio.Contract.Bounds.Status.{
  HostStatusIsValid, parse_status-HostStatusIsValid,
}

abbrev pub sample_status_payload : Fields
sample_status_payload = field "schema_version" (int (pos 1)) (
    field "agent_version" (str "0.2.5") (
      field "machine"
        (dict (
          field "machine_id" (str "0123456789abcdef")
            (field "hostname" (str "pi") (field "uptime_seconds" (int (pos 0)) end))))
        (field "cpu" (dict end) (
          field "memory" (dict end)
            (field "updates" (dict (field "available" (int (pos 0)) end)) end)))))

abbrev pub sample_status : HostStatus
sample_status = record {
  schema_version = 1;
  agent_version = "0.2.5";
  machine = record {
    machine_id = "0123456789abcdef";
    hostname = "pi";
    model = "Unknown";
    os = "Unknown";
    kernel = "Unknown";
    arch = "Unknown";
    uptime_seconds = float_zero;
  };
  cpu = record {
    usage_percent = none;
    temperature_c = none;
    load_1 = none;
    load_5 = none;
    load_15 = none;
  };
  memory = record { total_bytes = pos 0; used_bytes = pos 0; used_percent = float_zero };
  filesystems = [];
  network = [];
  updates = record {
    last_checked = none;
    available = pos 0;
    security = pos 0;
    reboot_required = false;
  };
  services = [];
  job = none;
  maintenance = no_maintenance;
  policy_version = "unknown";
}

parse_status-HostStatusIsValid_example : HostStatusIsValid sample_status
unfolding parse_status ◌>>=◌ is_nat mapping parse_machine string is_machine_id number of_int checked
    is_finite is_negative parse_cpu parse_memory bounded_list parse_each unless_null
    parse_maintenance optional_string boolean parse_update_info trunc
parse_status-HostStatusIsValid_example =
    parse_status-HostStatusIsValid sample_status_payload sample_status refl
