-- ===== src/Integration/Runtime/Configure.antt =====
-- `async_configure_services`, `_drop_client` and `async_close`.
use ha_pi_manager_integratio.Prelude.{String, List, [], ◌∷◌, ok, false}
use ha_pi_manager_integratio.Json.{Value, list, dict, Fields, field, end, strings}
use ha_pi_manager_integratio.Integration.Runtime.State.{Python, Io}
use ha_pi_manager_integratio.Integration.Runtime.Operations.{query}

-- The four lists of filters; a missing one is empty.
pub record Filters : Type 0 where
  pub filesystem_include : List String
  pub filesystem_exclude : List String
  pub network_include : List String
  pub network_exclude : List String

abbrev configuration : List String → Filters → Value
configuration services filters = dict (
    field "services" (list (strings services)) (
      field "filesystem_include" (list (strings filters.filesystem_include)) (
        field "filesystem_exclude" (list (strings filters.filesystem_exclude)) (
          field "network_include" (list (strings filters.network_include))
            (field "network_exclude" (list (strings filters.network_exclude)) end)))))

-- `encode` stands for base64 of the JSON text in UTF-8.
unfoldable pub async_configure_services :
    Python → (Value → String) → List String → Filters → Io Fields
unfolding query
async_configure_services py encode services filters = query py (
    "configure-services"
    ∷ "--json"
    ∷ "--services-json"
    ∷ encode (configuration services filters)
    ∷ [])

-- `_drop_client`
unfoldable pub drop_client : Io (Unit {0})
drop_client r = (ok tt, record r { client = false })

-- `async_close`
unfoldable pub async_close : Io (Unit {0})
unfolding drop_client
async_close = drop_client
