-- ===== src/Agent/Services.antt =====
-- The service allowlist: `_config`, `_service_allowed`, `_service_status`, and the service branches
-- of `main`.
use ha_pi_manager_integratio.Prelude.{
  String, ε, ◌▹◌, ◌==◌, Bool, true, ◌&&◌, not, List, [], ◌∷◌, Result, ok, err, any, if◌then◌else◌,
  has_infix, pos, arith, ◌≡◌,
}
use ha_pi_manager_integratio.Prelude.Exec.{◌>>=◌, ◌>>◌, pure, lift, unless}
use ha_pi_manager_integratio.Json.{
  Value, bool, int, str, list, dict, nil, Fields, end, field, elements, strings, get_or, set,
}
use ha_pi_manager_integratio.Agent.Constants.{lookup}
use ha_pi_manager_integratio.Agent.Names.{service_name_valid}
use ha_pi_manager_integratio.Agent.World.{
  World, Agent, Failure, agent_error, type_error, succeeded, run, load_config,
}
use ha_pi_manager_integratio.Agent.Jobs.State.{properties, text_or}

abbrev characters : String → List Value
characters ε = []
characters (c ▹ s) = str (c ▹ ε) ∷ characters s

abbrev keys : Fields → List Value
keys end = []
keys (field k v rest) = str k ∷ keys rest

-- `for name in value`: a text gives its characters, an object its keys.
unfoldable pub iterate : Value → Result Failure (List Value)
iterate (list items) = ok (elements items)
iterate (str text) = ok (characters text)
iterate (dict fields) = ok (keys fields)
iterate _ = err type_error

-- `[name for name in names if isinstance(name, str) and _service_name_valid(name)]`
unfoldable pub valid_services : List Value → List String
valid_services [] = []
valid_services (str name ∷ rest) =
    let more = valid_services rest in if service_name_valid name then name ∷ more else more
valid_services (_ ∷ rest) = valid_services rest

abbrev pub default_config : Fields
default_config = field "schema_version" (int (pos 1)) (
    field "services" (list nil) (
      field "filesystem_include" (list nil) (
        field "filesystem_exclude" (list nil)
          (field "network_include" (list nil) (field "network_exclude" (list nil) end)))))

-- `_config`: the configuration and the services that it then holds
unfoldable pub read_config : Agent (Fields × List String)
read_config = do
  config ← load_config default_config
  names ← lift (iterate (get_or (list nil) "services" config))
  let services = valid_services names
  pure (set "services" (list (strings services)) config, services)

abbrev pub contains : String → List String → Bool
contains name names = any (λ n. n == name) names

-- `_service_allowed`
unfoldable pub service_allowed : String → List String → Agent Unit
service_allowed name services = do
  unless (service_name_valid name) (agent_error "service_invalid")
  unless (contains name services) (agent_error "service_not_allowlisted")

-- Only a valid name of the allowlist passes.
pub service_allowed-ok :
    (name : String) (services : List String) (w : World)
    → (service_allowed name services w).0 ≡ ok tt
    → (service_name_valid name ≡ true) × (contains name services ≡ true)
unfolding service_allowed ◌>>=◌
service_allowed-ok name services w h = ground arith

abbrev pub show_service : String → List String
show_service name =
    "/bin/systemctl" ∷ "show" ∷ name ∷ "--property=ActiveState,SubState" ∷ "--no-page" ∷ []

-- `_service_status`
unfoldable pub service_status : String → List String → Agent Value
service_status name services = do
  service_allowed name services
  result ← run (show_service name)
  let seen = properties result.stdout
  let state = text_or "unknown" (lookup "ActiveState" seen)
  pure (
      dict (
        field "name" (str name) (
          field "active" (bool (succeeded result && (state == "active"))) (
            field "state" (str state)
              (field "substate" (str (text_or "unknown" (lookup "SubState" seen))) end)))))

abbrev pub restart_service : String → List String
restart_service name = "/bin/systemctl" ∷ "restart" ∷ name ∷ []

abbrev pub show_load_state : String → List String
show_load_state name = "/bin/systemctl" ∷ "show" ∷ name ∷ "--property=LoadState" ∷ "--no-page" ∷ []

-- The branches of `main`, each after `config = _config()`.
unfoldable pub handle_status : String → Agent Value
handle_status name = do (config, services) ← read_config; service_status name services

unfoldable pub handle_validate : String → Agent Value
handle_validate name = do
  (config, services) ← read_config
  unless (service_name_valid name) (agent_error "service_invalid")
  result ← run (show_load_state name)
  unless (succeeded result && not (has_infix "LoadState=not-found" result.stdout))
      (agent_error "service_not_found")
  pure (dict (field "valid" (bool true) (field "name" (str name) end)))

unfoldable pub handle_restart : String → Agent Value
handle_restart name = do
  (config, services) ← read_config
  service_allowed name services
  result ← run (restart_service name)
  unless (succeeded result) (agent_error "service_restart_failed")
  pure (dict (field "accepted" (bool true) (field "service" (str name) end)))
