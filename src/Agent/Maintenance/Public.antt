-- ===== src/Agent/Maintenance/Public.antt =====
-- `_public_maintenance`: what a status shows of the maintenance record in the state file.
use ha_pi_manager_integratio.Prelude.{
  String, Option, none, some, List, [], ◌∷◌, pos, if◌then◌else◌, take, str_take,
}
use ha_pi_manager_integratio.Json.{
  Value, null, bool, int, str, list, dict, nil, Fields, end, field, elements, of_list, strings, get,
  get_or, values, is_true,
}
use ha_pi_manager_integratio.Agent.Constants.{package_preview_commands, has_key}
use ha_pi_manager_integratio.Agent.Names.{matches_package}

-- `_bounded_text`, at its default limit
unfoldable pub bounded_text : Value → Value
bounded_text (str text) = str (str_take 512 text)
bounded_text _ = null

-- `_bounded_count`
unfoldable pub bounded_count : Value → Value
bounded_count (int (pos n)) = int (pos n)
bounded_count _ = int (pos 0)

unfoldable pub package_names : List Value → List String
package_names [] = []
package_names (str name ∷ rest) =
    let more = package_names rest in if matches_package name then str_take 256 name ∷ more else more
package_names (_ ∷ rest) = package_names rest

-- `_bounded_names`
unfoldable pub bounded_names : Value → Value
bounded_names (list items) = list (strings (package_names (take 256 (elements items))))
bounded_names _ = list nil

unfoldable pub public_preview : String → Fields → Value
public_preview operation raw = dict (
    field "operation" (str operation) (
      field "last_checked" (bounded_text (get "last_checked" raw)) (
        field "upgraded" (bounded_count (get "upgraded" raw)) (
          field "newly_installed" (bounded_count (get "newly_installed" raw)) (
            field "to_remove" (bounded_count (get "to_remove" raw)) (
              field "not_upgraded" (bounded_count (get "not_upgraded" raw)) (
                field "reboot_required" (bool (is_true (get "reboot_required" raw)))
                  (field "summary" (bounded_text (get "summary" raw)) end))))))))

-- A preview that has a known operation
unfoldable pub known_preview : Value → Fields → Option Value
known_preview (str operation) raw =
    if has_key operation package_preview_commands then some (public_preview operation raw) else none
known_preview _ raw = none

unfoldable pub public_previews : List Value → List Value
public_previews [] = []
public_previews (dict raw ∷ rest) =
    let more = public_previews rest in
    elim (known_preview (get "operation" raw) raw) [ none ↦ more | some preview ↦ preview ∷ more ]
public_previews (_ ∷ rest) = public_previews rest

-- `list(raw.values()) if isinstance(raw, Mapping) else raw`, cut to eight if it is a list
unfoldable pub preview_values : Value → List Value
preview_values (dict raw) = take 8 (values raw)
preview_values (list items) = take 8 (elements items)
preview_values _ = []

unfoldable pub public_audit : Value → Value
public_audit (dict raw) = dict (
    field "last_checked" (bounded_text (get "last_checked" raw)) (
      field "healthy" (bool (is_true (get "healthy" raw))) (
        field "dpkg_issues" (bounded_count (get "dpkg_issues" raw)) (
          field "apt_healthy" (bool (is_true (get "apt_healthy" raw)))
            (field "summary" (bounded_text (get "summary" raw)) end)))))
public_audit _ = null

unfoldable pub public_names : String → Value → Value
public_names key (dict raw) = dict (
    field "last_checked" (bounded_text (get "last_checked" raw))
      (field key (bounded_names (get key raw)) end))
public_names key _ = null

unfoldable pub public_maintenance : Value → Value
public_maintenance (dict value) = dict (
    field "previews"
      (list (of_list (public_previews (preview_values (get_or (dict end) "previews" value)))))
      (field "audit" (public_audit (get "audit" value)) (
        field "holds" (public_names "packages" (get "holds" value))
          (field "failed_services" (public_names "services" (get "failed_services" value)) end))))
public_maintenance _ = dict (
    field "previews" (list nil)
      (field "audit" null (field "holds" null (field "failed_services" null end))))
