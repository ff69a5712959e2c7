-- ===== src/Protocol/Maintenance.antt =====
-- `_public_maintenance` of the helper and `_parse_maintenance` of the integration.
use ha_pi_manager_integratio.Prelude.{refl, Option, none, some}
use ha_pi_manager_integratio.Json.{Value, dict, Fields, end, get, get_or}
use ha_pi_manager_integratio.Models.{MaintenanceInfo}
use ha_pi_manager_integratio.Contract.Fields.{mapping}
use ha_pi_manager_integratio.Contract.Maintenance.{
  unless_null, parse_audit, parse_holds, parse_failed_services, parse_maintenance_item,
  parse_maintenance,
}
use ha_pi_manager_integratio.Agent.Maintenance.Public.{
  preview_values, public_audit, public_names, public_maintenance,
}
use ha_pi_manager_integratio.Protocol.Accepts.{Accepts, Accepts-ok, Accepts-bind, Accepts-known}
use ha_pi_manager_integratio.Protocol.Preview.{IsAuditOf, parse_audit-public_audit}
use ha_pi_manager_integratio.Protocol.Previews.{
  shown_previews, ArePreviewsOf, shown_previews-short, parse_each-previews, bounded_list-previews,
}
use ha_pi_manager_integratio.Protocol.Names.{
  IsHoldsOf, IsFailedOf, parse_holds-public_names, parse_failed_services-public_names,
}

-- An optional part: it is read exactly if the helper's record is an object.
abbrev pub Shows : {A : Type 0} → (Fields → A → Type 0) → Value → Option A → Type 0
Shows P (dict raw) (some a) = P raw a
Shows P (dict raw) none = ⊥
Shows P _ (some a) = ⊥
Shows P _ none = Unit

-- What the integration reads of the maintenance record of the state file
pub record IsMaintenanceOf (value : Fields) (m : MaintenanceInfo) : Type 0 where
  pub previews :
      ArePreviewsOf
        (shown_previews (preview_values (get_or (dict end) "previews" value)))
        m.previews
  pub audit : Shows IsAuditOf (get "audit" value) m.audit
  pub holds : Shows IsHoldsOf (get "holds" value) m.holds
  pub failed_services : Shows IsFailedOf (get "failed_services" value) m.failed_services

audit-Shows : (v : Value) → Accepts (Shows IsAuditOf v) (unless_null parse_audit (public_audit v))
unfolding unless_null public_audit
audit-Shows (dict raw) = Accepts-bind (parse_audit-public_audit raw) λ a h. Accepts-ok _ h
audit-Shows _ = Accepts-ok none tt

holds-Shows :
    (v : Value) → Accepts (Shows IsHoldsOf v) (unless_null parse_holds (public_names "packages" v))
unfolding unless_null public_names
holds-Shows (dict raw) = Accepts-bind (parse_holds-public_names raw) λ a h. Accepts-ok _ h
holds-Shows _ = Accepts-ok none tt

failed_services-Shows :
    (v : Value)
    → Accepts (Shows IsFailedOf v) (unless_null parse_failed_services (public_names "services" v))
unfolding unless_null public_names
failed_services-Shows (dict raw) =
    Accepts-bind (parse_failed_services-public_names raw) λ a h. Accepts-ok _ h
failed_services-Shows _ = Accepts-ok none tt

-- Whatever the maintenance record of the state file is, the integration reads what the helper shows
-- of it: the known previews in their order, the audit, the holds and the failed services, with the
-- bounded texts and names, and each count exactly up to 2^53. The one failure is a count that no
-- float can hold.
pub parse_maintenance-public_maintenance :
    (value : Fields)
    → Accepts (IsMaintenanceOf value) (parse_maintenance (public_maintenance (dict value)))
unfolding parse_maintenance parse_maintenance_item public_maintenance mapping
parse_maintenance-public_maintenance value = Accepts-known _ _ refl (
    Accepts-known _ _ (bounded_list-previews (get_or (dict end) "previews" value)) (
      Accepts-bind
        (parse_each-previews 0 _
          (shown_previews-short (preview_values (get_or (dict end) "previews" value))))
        λ previews p. Accepts-bind (audit-Shows (get "audit" value)) λ audit a.
          Accepts-bind (holds-Shows (get "holds" value)) λ holds h.
            Accepts-bind (failed_services-Shows (get "failed_services" value)) λ failed f.
              Accepts-ok _ (record { previews = p; audit = a; holds = h; failed_services = f })))
