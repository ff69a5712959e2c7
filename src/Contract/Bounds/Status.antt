-- ===== src/Contract/Bounds/Status.antt =====
-- A parsed status is in range throughout, whatever document the helper sent.
use ha_pi_manager_integratio.Prelude.{◌≤◌, ◌≡◌, Bool, true, All, length, ok, arith}
use ha_pi_manager_integratio.Prelude.Results.{Ensures, Ensures-ok, Ensures-bind, require}
use ha_pi_manager_integratio.Errors.{PyError}
use ha_pi_manager_integratio.Json.{Fields}
use ha_pi_manager_integratio.Models.{HostStatus, MachineInfo, CpuInfo, MemoryInfo}
use ha_pi_manager_integratio.Contract.Status.{
  is_machine_id, parse_machine, parse_cpu, parse_memory, parse_status,
}
use ha_pi_manager_integratio.Contract.Valid.{
  IsText, IsNatural, IsReading, IfPresent, always, string-IsText, count-IsNatural, amount-IsReading,
  sensor-IsReading, parse_each-All, unless_null-IfPresent, bounded_list-bound,
}
use ha_pi_manager_integratio.Contract.Bounds.Parts.{
  UpdateInfoIsValid, FilesystemInfoIsValid, NetworkInfoIsValid, ServiceInfoIsValid, JobInfoIsValid,
  parse_update_info-IsValid, parse_filesystem-IsValid, parse_network-IsValid, parse_service-IsValid,
  parse_job-IsValid,
}
use ha_pi_manager_integratio.Contract.Bounds.Maintenance.{
  MaintenanceInfoIsValid, parse_maintenance-IsValid,
}

require-holds : (b : Bool) (e : PyError) → Ensures (λ _. b ≡ true) (require b e)
require-holds b e = record { at = λ _ h. ground arith }

pub record MachineInfoIsValid (m : MachineInfo) : Type 0 where
  pub machine_id : is_machine_id m.machine_id ≡ true
  pub hostname : IsText m.hostname
  pub model : IsText m.model
  pub os : IsText m.os
  pub kernel : IsText m.kernel
  pub arch : IsText m.arch
  pub uptime_seconds : IsReading m.uptime_seconds

parse_machine-IsValid : (fields : Fields) → Ensures MachineInfoIsValid (parse_machine fields)
unfolding parse_machine
parse_machine-IsValid fields = Ensures-bind (string-IsText _ _ _ (omega arith)) λ _ _.
    Ensures-bind (require-holds _ _) λ _ i. Ensures-bind (string-IsText _ _ _ (omega arith)) λ _ h.
      Ensures-bind (string-IsText _ _ _ (omega arith)) λ _ m.
        Ensures-bind (string-IsText _ _ _ (omega arith)) λ _ o.
          Ensures-bind (string-IsText _ _ _ (omega arith)) λ _ k.
            Ensures-bind (string-IsText _ _ _ (omega arith)) λ _ a.
              Ensures-bind (amount-IsReading _ _) λ _ u. Ensures-ok MachineInfoIsValid _ (record {
                machine_id = i;
                hostname = h;
                model = m;
                os = o;
                kernel = k;
                arch = a;
                uptime_seconds = u;
              })

pub record CpuInfoIsValid (c : CpuInfo) : Type 0 where
  pub usage_percent : IfPresent IsReading c.usage_percent
  pub temperature_c : IfPresent IsReading c.temperature_c
  pub load_1 : IfPresent IsReading c.load_1
  pub load_5 : IfPresent IsReading c.load_5
  pub load_15 : IfPresent IsReading c.load_15

parse_cpu-IsValid : (fields : Fields) → Ensures CpuInfoIsValid (parse_cpu fields)
unfolding parse_cpu
parse_cpu-IsValid fields = Ensures-bind (sensor-IsReading _ _) λ _ u.
    Ensures-bind (sensor-IsReading _ _) λ _ t. Ensures-bind (sensor-IsReading _ _) λ _ a.
      Ensures-bind (sensor-IsReading _ _) λ _ b. Ensures-bind (sensor-IsReading _ _) λ _ c.
        Ensures-ok CpuInfoIsValid _
          (record { usage_percent = u; temperature_c = t; load_1 = a; load_5 = b; load_15 = c })

pub record MemoryInfoIsValid (m : MemoryInfo) : Type 0 where
  pub total_bytes : IsNatural m.total_bytes
  pub used_bytes : IsNatural m.used_bytes
  pub used_percent : IsReading m.used_percent

parse_memory-IsValid : (fields : Fields) → Ensures MemoryInfoIsValid (parse_memory fields)
unfolding parse_memory
parse_memory-IsValid fields = Ensures-bind (count-IsNatural _ _) λ _ t.
    Ensures-bind (count-IsNatural _ _) λ _ u. Ensures-bind (amount-IsReading _ _) λ _ p.
      Ensures-ok MemoryInfoIsValid _ (record { total_bytes = t; used_bytes = u; used_percent = p })

pub record HostStatusIsValid (s : HostStatus) : Type 0 where
  pub agent_version : IsText s.agent_version
  pub machine : MachineInfoIsValid s.machine
  pub cpu : CpuInfoIsValid s.cpu
  pub memory : MemoryInfoIsValid s.memory
  pub filesystems : All FilesystemInfoIsValid s.filesystems
  pub filesystem_count : length s.filesystems ≤ 512
  pub network : All NetworkInfoIsValid s.network
  pub network_count : length s.network ≤ 256
  pub updates : UpdateInfoIsValid s.updates
  pub services : All ServiceInfoIsValid s.services
  pub service_count : length s.services ≤ 256
  pub job : IfPresent JobInfoIsValid s.job
  pub maintenance : MaintenanceInfoIsValid s.maintenance
  pub policy_version : IsText s.policy_version

parse_status-Ensures : (payload : Fields) → Ensures HostStatusIsValid (parse_status payload)
unfolding parse_status
parse_status-Ensures payload = Ensures-bind (always _) λ _ _. Ensures-bind (always _) λ _ _.
    Ensures-bind (always _) λ _ _. Ensures-bind (always _) λ _ _. Ensures-bind (always _) λ _ _.
      Ensures-bind (parse_machine-IsValid _) λ _ m. Ensures-bind (parse_cpu-IsValid _) λ _ c.
        Ensures-bind (parse_memory-IsValid _) λ _ y.
          Ensures-bind (bounded_list-bound 512 _ _) λ _ fb.
            Ensures-bind (parse_each-All FilesystemInfoIsValid _ parse_filesystem-IsValid 0 _)
              λ _ f. Ensures-bind (bounded_list-bound 256 _ _) λ _ nb.
                Ensures-bind (parse_each-All NetworkInfoIsValid _ parse_network-IsValid 0 _) λ _ n.
                  Ensures-bind (bounded_list-bound 256 _ _) λ _ sb.
                    Ensures-bind (parse_each-All ServiceInfoIsValid _ parse_service-IsValid 0 _)
                      λ _ s.
                        Ensures-bind (unless_null-IfPresent JobInfoIsValid _ parse_job-IsValid _)
                          λ _ j. Ensures-bind (parse_maintenance-IsValid _) λ _ t.
                            Ensures-bind (string-IsText _ _ _ (omega arith)) λ _ a.
                              Ensures-bind (parse_update_info-IsValid _ _) λ _ u.
                                Ensures-bind (string-IsText _ _ _ (omega arith)) λ _ p.
                                  Ensures-ok HostStatusIsValid _ (record {
                                    agent_version = a;
                                    machine = m;
                                    cpu = c;
                                    memory = y;
                                    filesystems = f.0;
                                    filesystem_count = omega (arith, f.1);
                                    network = n.0;
                                    network_count = omega (arith, n.1);
                                    updates = u;
                                    services = s.0;
                                    service_count = omega (arith, s.1);
                                    job = j;
                                    maintenance = t;
                                    policy_version = p;
                                  })

-- Whatever document the helper sends, a status that `parse_status` returns has a machine id of 16
-- to 128 hexadecimal digits, texts of at most 4096 characters, numbers that are finite and not
-- negative in every field, and no list above its bound.
pub parse_status-HostStatusIsValid :
    (payload : Fields) (status : HostStatus)
    → parse_status payload ≡ ok status
    → HostStatusIsValid status
parse_status-HostStatusIsValid payload status h = (parse_status-Ensures payload).at status h
