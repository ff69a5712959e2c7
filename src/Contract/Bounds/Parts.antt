-- ===== src/Contract/Bounds/Parts.antt =====
-- The parts of a status document, as parsed, are in range.
use ha_pi_manager_integratio.Prelude.{ℕ, Bool, arith}
use ha_pi_manager_integratio.Prelude.Results.{Ensures, Ensures-ok, Ensures-bind}
use ha_pi_manager_integratio.Json.{Value, Fields}
use ha_pi_manager_integratio.Models.{FilesystemInfo, NetworkInfo, ServiceInfo, UpdateInfo, JobInfo}
use ha_pi_manager_integratio.Contract.Parts.{
  parse_filesystem, parse_network, parse_service, parse_job, parse_update_info,
}
use ha_pi_manager_integratio.Contract.Valid.{
  IsText, IsNatural, IsReading, IfPresent, always, string-IsText, optional_string-IsText,
  count-IsNatural, amount-IsReading, exit_code-IsNatural,
}

pub record UpdateInfoIsValid (u : UpdateInfo) : Type 0 where
  pub last_checked : IfPresent IsText u.last_checked
  pub available : IsNatural u.available
  pub security : IsNatural u.security

pub parse_update_info-IsValid :
    (value : Fields) (include_reboot : Bool)
    → Ensures UpdateInfoIsValid (parse_update_info value include_reboot)
unfolding parse_update_info
parse_update_info-IsValid value include_reboot = Ensures-bind (optional_string-IsText _ _) λ _ t.
    Ensures-bind (count-IsNatural _ _) λ _ a. Ensures-bind (count-IsNatural _ _) λ _ s.
      Ensures-bind (always _) λ _ _.
        Ensures-ok UpdateInfoIsValid _ (record { last_checked = t; available = a; security = s })

pub record FilesystemInfoIsValid (f : FilesystemInfo) : Type 0 where
  pub mount : IsText f.mount
  pub device : IsText f.device
  pub fstype : IsText f.fstype
  pub total_bytes : IsNatural f.total_bytes
  pub used_bytes : IsNatural f.used_bytes
  pub used_percent : IsReading f.used_percent

pub parse_filesystem-IsValid :
    (value : Value) (index : ℕ) → Ensures FilesystemInfoIsValid (parse_filesystem value index)
unfolding parse_filesystem
parse_filesystem-IsValid value index = Ensures-bind (always _) λ _ _.
    Ensures-bind (string-IsText _ _ _ (omega arith)) λ _ m.
      Ensures-bind (string-IsText _ _ _ (omega arith)) λ _ d.
        Ensures-bind (string-IsText _ _ _ (omega arith)) λ _ t.
          Ensures-bind (count-IsNatural _ _) λ _ b. Ensures-bind (count-IsNatural _ _) λ _ u.
            Ensures-bind (amount-IsReading _ _) λ _ p. Ensures-bind (always _) λ _ _.
              Ensures-ok FilesystemInfoIsValid _ (record {
                mount = m;
                device = d;
                fstype = t;
                total_bytes = b;
                used_bytes = u;
                used_percent = p;
              })

pub record NetworkInfoIsValid (n : NetworkInfo) : Type 0 where
  pub interface : IsText n.interface
  pub rx_bytes : IsNatural n.rx_bytes
  pub tx_bytes : IsNatural n.tx_bytes
  pub operstate : IsText n.operstate

pub parse_network-IsValid :
    (value : Value) (index : ℕ) → Ensures NetworkInfoIsValid (parse_network value index)
unfolding parse_network
parse_network-IsValid value index = Ensures-bind (always _) λ _ _.
    Ensures-bind (string-IsText _ _ _ (omega arith)) λ _ i.
      Ensures-bind (count-IsNatural _ _) λ _ r. Ensures-bind (count-IsNatural _ _) λ _ t.
        Ensures-bind (string-IsText _ _ _ (omega arith)) λ _ o.
          Ensures-ok NetworkInfoIsValid _
            (record { interface = i; rx_bytes = r; tx_bytes = t; operstate = o })

pub record ServiceInfoIsValid (s : ServiceInfo) : Type 0 where
  pub name : IsText s.name
  pub state : IsText s.state
  pub substate : IsText s.substate

pub parse_service-IsValid :
    (value : Value) (index : ℕ) → Ensures ServiceInfoIsValid (parse_service value index)
unfolding parse_service
parse_service-IsValid value index = Ensures-bind (always _) λ _ _.
    Ensures-bind (string-IsText _ _ _ (omega arith)) λ _ n. Ensures-bind (always _) λ _ _.
      Ensures-bind (string-IsText _ _ _ (omega arith)) λ _ t.
        Ensures-bind (string-IsText _ _ _ (omega arith))
          λ _ u. Ensures-ok ServiceInfoIsValid _ (record { name = n; state = t; substate = u })

pub record JobInfoIsValid (j : JobInfo) : Type 0 where
  pub job_id : IsText j.job_id
  pub job_type : IsText j.job_type
  pub state : IsText j.state
  pub started_at : IfPresent IsText j.started_at
  pub finished_at : IfPresent IsText j.finished_at
  pub exit_code : IfPresent IsNatural j.exit_code
  pub summary : IfPresent IsText j.summary

pub parse_job-IsValid : (value : Value) → Ensures JobInfoIsValid (parse_job value)
unfolding parse_job
parse_job-IsValid value = Ensures-bind (always _) λ _ _.
    Ensures-bind (string-IsText _ _ _ (omega arith)) λ _ i.
      Ensures-bind (string-IsText _ _ _ (omega arith)) λ _ t.
        Ensures-bind (string-IsText _ _ _ (omega arith)) λ _ s.
          Ensures-bind (optional_string-IsText _ _) λ _ b.
            Ensures-bind (optional_string-IsText _ _) λ _ f.
              Ensures-bind (exit_code-IsNatural _ _) λ _ e.
                Ensures-bind (optional_string-IsText _ _) λ _ m.
                  Ensures-ok JobInfoIsValid _ (record {
                    job_id = i;
                    job_type = t;
                    state = s;
                    started_at = b;
                    finished_at = f;
                    exit_code = e;
                    summary = m;
                  })
