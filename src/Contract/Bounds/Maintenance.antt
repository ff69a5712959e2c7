-- ===== src/Contract/Bounds/Maintenance.antt =====
-- The maintenance part of a status document, as parsed, is in range.
use ha_pi_manager_integratio.Prelude.{ℕ, ◌≤◌, String, All, length, arith}
use ha_pi_manager_integratio.Prelude.Results.{Ensures, Ensures-ok, Ensures-bind}
use ha_pi_manager_integratio.Json.{Value, null, bool}
use ha_pi_manager_integratio.Models.{
  PackagePreviewInfo, PackageAuditInfo, PackageHoldsInfo, FailedServicesInfo, MaintenanceInfo,
  no_maintenance,
}
use ha_pi_manager_integratio.Contract.Maintenance.{
  parse_preview, parse_audit, parse_name, parse_holds, parse_failed_services,
  parse_maintenance_item, parse_maintenance,
}
use ha_pi_manager_integratio.Contract.Valid.{
  IsText, IsNatural, IfPresent, always, string-IsText, optional_string-IsText, count-IsNatural,
  parse_each-All, unless_null-IfPresent, bounded_list-bound,
}

pub record PackagePreviewInfoIsValid (p : PackagePreviewInfo) : Type 0 where
  pub operation : IsText p.operation
  pub last_checked : IfPresent IsText p.last_checked
  pub upgraded : IsNatural p.upgraded
  pub newly_installed : IsNatural p.newly_installed
  pub to_remove : IsNatural p.to_remove
  pub not_upgraded : IsNatural p.not_upgraded
  pub summary : IfPresent IsText p.summary

parse_preview-IsValid :
    (value : Value) (index : ℕ) → Ensures PackagePreviewInfoIsValid (parse_preview value index)
unfolding parse_preview
parse_preview-IsValid value index = Ensures-bind (always _) λ _ _.
    Ensures-bind (string-IsText _ _ _ (omega arith)) λ _ o.
      Ensures-bind (optional_string-IsText _ _) λ _ l. Ensures-bind (count-IsNatural _ _) λ _ u.
        Ensures-bind (count-IsNatural _ _) λ _ n. Ensures-bind (count-IsNatural _ _) λ _ r.
          Ensures-bind (count-IsNatural _ _) λ _ k. Ensures-bind (always _) λ _ _.
            Ensures-bind (optional_string-IsText _ _) λ _ s.
              Ensures-ok PackagePreviewInfoIsValid _ (record {
                operation = o;
                last_checked = l;
                upgraded = u;
                newly_installed = n;
                to_remove = r;
                not_upgraded = k;
                summary = s;
              })

pub record PackageAuditInfoIsValid (a : PackageAuditInfo) : Type 0 where
  pub last_checked : IfPresent IsText a.last_checked
  pub dpkg_issues : IsNatural a.dpkg_issues
  pub summary : IfPresent IsText a.summary

parse_audit-IsValid : (value : Value) → Ensures PackageAuditInfoIsValid (parse_audit value)
unfolding parse_audit
parse_audit-IsValid value = Ensures-bind (always _) λ _ _.
    Ensures-bind (optional_string-IsText _ _) λ _ l. Ensures-bind (always _) λ _ _.
      Ensures-bind (count-IsNatural _ _) λ _ d. Ensures-bind (always _) λ _ _.
        Ensures-bind (optional_string-IsText _ _) λ _ s.
          Ensures-ok PackageAuditInfoIsValid _
            (record { last_checked = l; dpkg_issues = d; summary = s })

pub record PackageHoldsInfoIsValid (h : PackageHoldsInfo) : Type 0 where
  pub last_checked : IfPresent IsText h.last_checked
  pub packages : All IsText h.packages
  pub count : length h.packages ≤ 256

parse_name-IsText :
    (list_name : String) (value : Value) (index : ℕ)
    → Ensures IsText (parse_name list_name value index)
unfolding parse_name
parse_name-IsText list_name value index = string-IsText _ _ _ (omega arith)

parse_holds-IsValid : (value : Value) → Ensures PackageHoldsInfoIsValid (parse_holds value)
unfolding parse_holds
parse_holds-IsValid value = Ensures-bind (always _) λ _ _.
    Ensures-bind (bounded_list-bound 256 _ _) λ _ b.
      Ensures-bind (optional_string-IsText _ _) λ _ l.
        Ensures-bind (parse_each-All IsText _ (parse_name-IsText _) 0 _) λ _ p.
          Ensures-ok PackageHoldsInfoIsValid _
            (record { last_checked = l; packages = p.0; count = omega (arith, p.1) })

pub record FailedServicesInfoIsValid (f : FailedServicesInfo) : Type 0 where
  pub last_checked : IfPresent IsText f.last_checked
  pub services : All IsText f.services
  pub count : length f.services ≤ 256

parse_failed_services-IsValid :
    (value : Value) → Ensures FailedServicesInfoIsValid (parse_failed_services value)
unfolding parse_failed_services
parse_failed_services-IsValid value = Ensures-bind (always _) λ _ _.
    Ensures-bind (bounded_list-bound 256 _ _) λ _ b.
      Ensures-bind (optional_string-IsText _ _) λ _ l.
        Ensures-bind (parse_each-All IsText _ (parse_name-IsText _) 0 _) λ _ p.
          Ensures-ok FailedServicesInfoIsValid _
            (record { last_checked = l; services = p.0; count = omega (arith, p.1) })

pub record MaintenanceInfoIsValid (m : MaintenanceInfo) : Type 0 where
  pub previews : All PackagePreviewInfoIsValid m.previews
  pub count : length m.previews ≤ 8
  pub audit : IfPresent PackageAuditInfoIsValid m.audit
  pub holds : IfPresent PackageHoldsInfoIsValid m.holds
  pub failed_services : IfPresent FailedServicesInfoIsValid m.failed_services

parse_maintenance_item-IsValid :
    (value : Value) → Ensures MaintenanceInfoIsValid (parse_maintenance_item value)
unfolding parse_maintenance_item
parse_maintenance_item-IsValid value = Ensures-bind (always _) λ _ _.
    Ensures-bind (bounded_list-bound 8 _ _) λ _ b.
      Ensures-bind (parse_each-All PackagePreviewInfoIsValid _ parse_preview-IsValid 0 _) λ _ p.
        Ensures-bind (unless_null-IfPresent PackageAuditInfoIsValid _ parse_audit-IsValid _) λ _ a.
          Ensures-bind (unless_null-IfPresent PackageHoldsInfoIsValid _ parse_holds-IsValid _)
            λ _ h.
              Ensures-bind
                (unless_null-IfPresent FailedServicesInfoIsValid _ parse_failed_services-IsValid _)
                λ _ f. Ensures-ok MaintenanceInfoIsValid _ (record {
                  previews = p.0;
                  count = omega (arith, p.1);
                  audit = a;
                  holds = h;
                  failed_services = f;
                })

pub parse_maintenance-IsValid :
    (value : Value) → Ensures MaintenanceInfoIsValid (parse_maintenance value)
unfolding parse_maintenance
parse_maintenance-IsValid null =
    Ensures-ok MaintenanceInfoIsValid no_maintenance
      (record { previews = tt; count = omega arith; audit = tt; holds = tt; failed_services = tt })
parse_maintenance-IsValid (bool b) = parse_maintenance_item-IsValid (bool b)
parse_maintenance-IsValid value = parse_maintenance_item-IsValid _
