-- ===== src/Contract/Maintenance.antt =====
-- The maintenance part of a status document.
use ha_pi_manager_integratio.Prelude.{
  ℕ, String, Option, none, some, List, ok, err, ltb, length, if◌then◌else◌,
}
use ha_pi_manager_integratio.Prelude.Results.{◌>>=◌}
use ha_pi_manager_integratio.Errors.{Exc, helper_protocol}
use ha_pi_manager_integratio.Json.{Value, null, list, nil, elements, get, get_or}
use ha_pi_manager_integratio.Models.{
  PackagePreviewInfo, PackageAuditInfo, PackageHoldsInfo, FailedServicesInfo, MaintenanceInfo,
  no_maintenance,
}
use ha_pi_manager_integratio.Contract.Fields.{
  mapping, string, optional_string, boolean, parse_each, at_index,
}
use ha_pi_manager_integratio.Contract.Parts.{count}

-- `if not isinstance(value, list) or len(value) > limit: raise …`
unfoldable pub bounded_list : ℕ → String → Value → Exc (List Value)
bounded_list limit code (list items) =
    if ltb limit (length (elements items)) then err (helper_protocol code) else ok (elements items)
bounded_list limit code _ = err (helper_protocol code)

-- `None if value is None else parse(value)`
unfoldable pub unless_null : {A : Type 0} → (Value → Exc A) → Value → Exc (Option A)
unless_null parse null = ok none
unless_null parse value = do a ← parse value; ok (some a)

unfoldable pub parse_preview : Value → ℕ → Exc PackagePreviewInfo
parse_preview value index = do
  let name = at_index "maintenance.previews" index
  item ← mapping value (name "")
  operation ← string (get "operation" item) (name ".operation") ""
  last_checked ← optional_string (get "last_checked" item) (name ".last_checked")
  upgraded ← count (get "upgraded" item) (name ".upgraded")
  newly_installed ← count (get "newly_installed" item) (name ".newly_installed")
  to_remove ← count (get "to_remove" item) (name ".to_remove")
  not_upgraded ← count (get "not_upgraded" item) (name ".not_upgraded")
  reboot_required ← boolean (get "reboot_required" item) (name ".reboot_required")
  summary ← optional_string (get "summary" item) (name ".summary")
  ok (record {
    operation = operation;
    last_checked = last_checked;
    upgraded = upgraded;
    newly_installed = newly_installed;
    to_remove = to_remove;
    not_upgraded = not_upgraded;
    reboot_required = reboot_required;
    summary = summary;
  })

unfoldable pub parse_audit : Value → Exc PackageAuditInfo
parse_audit value = do
  item ← mapping value "maintenance.audit"
  last_checked ← optional_string (get "last_checked" item) "maintenance.audit.last_checked"
  healthy ← boolean (get "healthy" item) "maintenance.audit.healthy"
  dpkg_issues ← count (get "dpkg_issues" item) "maintenance.audit.dpkg_issues"
  apt_healthy ← boolean (get "apt_healthy" item) "maintenance.audit.apt_healthy"
  summary ← optional_string (get "summary" item) "maintenance.audit.summary"
  ok (record {
    last_checked = last_checked;
    healthy = healthy;
    dpkg_issues = dpkg_issues;
    apt_healthy = apt_healthy;
    summary = summary;
  })

-- One name of a list of names: `_string(name, f"{field}[{index}]")`.
unfoldable pub parse_name : String → Value → ℕ → Exc String
parse_name list_name value index = string value (at_index list_name index "") ""

unfoldable pub parse_holds : Value → Exc PackageHoldsInfo
parse_holds value = do
  item ← mapping value "maintenance.holds"
  packages ← bounded_list 256 "helper_maintenance_holds_invalid" (get_or (list nil) "packages" item)
  last_checked ← optional_string (get "last_checked" item) "maintenance.holds.last_checked"
  names ← parse_each (parse_name "maintenance.holds.packages") 0 packages
  ok (record { last_checked = last_checked; packages = names })

unfoldable pub parse_failed_services : Value → Exc FailedServicesInfo
parse_failed_services value = do
  item ← mapping value "maintenance.failed_services"
  services ←
      bounded_list 256 "helper_maintenance_failed_services_invalid"
        (get_or (list nil) "services" item)
  last_checked ←
      optional_string (get "last_checked" item) "maintenance.failed_services.last_checked"
  names ← parse_each (parse_name "maintenance.failed_services.services") 0 services
  ok (record { last_checked = last_checked; services = names })

-- `_parse_maintenance` of a value that is not `None`
unfoldable pub parse_maintenance_item : Value → Exc MaintenanceInfo
parse_maintenance_item value = do
  item ← mapping value "maintenance"
  values ← bounded_list 8 "helper_maintenance_previews_invalid" (get_or (list nil) "previews" item)
  previews ← parse_each parse_preview 0 values
  audit ← unless_null parse_audit (get "audit" item)
  holds ← unless_null parse_holds (get "holds" item)
  failed_services ← unless_null parse_failed_services (get "failed_services" item)
  ok (record {
    previews = previews;
    audit = audit;
    holds = holds;
    failed_services = failed_services;
  })

unfoldable pub parse_maintenance : Value → Exc MaintenanceInfo
parse_maintenance null = ok no_maintenance
parse_maintenance value = parse_maintenance_item value
