-- ===== src/Agent/Config.antt =====
-- `_configure_services`: the service allowlist and the filters that the integration sends.
use ha_pi_manager_integratio.Prelude.{
  String, ◌==◌, code, Bool, ◌&&◌, not, Option, none, some, List, [], ◌∷◌, ◌++◌, Result, ok, err,
  pos, if◌then◌else◌, ltb, leb, length, str_len, all_chars,
}
use ha_pi_manager_integratio.Prelude.Results.{◌>>=◌, ◌>>◌, require}
use ha_pi_manager_integratio.Json.{
  Value, int, str, list, dict, nil, Fields, end, field, elements, strings, get_or, set,
}
use ha_pi_manager_integratio.Agent.Constants.{agent_schema_version, max_json_bytes}
use ha_pi_manager_integratio.Agent.Names.{service_name_valid}
use ha_pi_manager_integratio.Agent.World.{Failure, agent_error}
use ha_pi_manager_integratio.Agent.Library.{Library}
use ha_pi_manager_integratio.Agent.Services.{contains}

-- `list(dict.fromkeys(names))`, and the loop that appends a name that is not there yet
unfoldable pub dedupe : List String → List String → List String
dedupe seen [] = seen
dedupe seen (name ∷ rest) = dedupe (if contains name seen then seen else seen ++ (name ∷ [])) rest

-- `services`: every element is a valid service name.
unfoldable pub service_names : List Value → Result Failure (List String)
service_names [] = ok []
service_names (str name ∷ rest) = do
  require (service_name_valid name) (agent_error "service_invalid")
  more ← service_names rest
  ok (name ∷ more)
service_names (_ ∷ rest) = err (agent_error "service_invalid")

abbrev json_of : Library → Option String → Option Value
json_of lib none = none
json_of lib (some text) = lib.loads text

abbrev as_configuration : Option Value → Result Failure Fields
as_configuration (some (list services)) = ok (field "services" (list services) end)
as_configuration (some (dict configuration)) = ok configuration
as_configuration _ = err (agent_error "service_config_invalid")

-- The decoded configuration; a list stands for its services.
unfoldable pub decode_configuration : Library → String → Result Failure Fields
decode_configuration lib encoded = elim (lib.b64decode encoded) [
  | none ↦ err (agent_error "service_config_invalid")
  | some raw ↦
      if ltb max_json_bytes (length raw)
      then err (agent_error "service_config_invalid")
      else as_configuration (json_of lib (lib.decode raw))
]

-- `configuration.get("services", [])`, checked and without repetitions
unfoldable pub bounded_services : Value → Result Failure (List String)
bounded_services (list items) = do
  require (leb (length (elements items)) 128) (agent_error "service_config_invalid")
  names ← service_names (elements items)
  ok (dedupe [] names)
bounded_services _ = err (agent_error "service_config_invalid")

unfoldable pub normalized_services : Fields → Result Failure (List String)
normalized_services configuration = bounded_services (get_or (list nil) "services" configuration)

-- A filter: a text of 1 to 4096 characters with no control character below 32.
unfoldable pub filter_valid : String → Bool
filter_valid text =
    not (text == "") && leb (str_len text) 4096 && all_chars (λ c. leb 32 (code c)) text

unfoldable pub filter_names : List Value → Option (List String)
filter_names [] = some []
filter_names (str text ∷ rest) =
    let more : Option (List String) = elim (filter_names rest) [
      | none ↦ none
      | some names ↦ some (text ∷ names)
    ] in
    if filter_valid text then more else none
filter_names (_ ∷ rest) = none

-- One of the four filters
unfoldable pub normalized_filter : Value → Result Failure (List String)
normalized_filter (list items) =
    if leb (length (elements items)) 256
    then elim (filter_names (elements items)) [
      | none ↦ err (agent_error "filter_config_invalid")
      | some names ↦ ok (dedupe [] names)
    ]
    else err (agent_error "filter_config_invalid")
normalized_filter _ = err (agent_error "filter_config_invalid")

-- The loop over the filters: each one is taken from the request, or else kept from the file.
unfoldable pub apply_filters : List String → Fields → Fields → Result Failure Fields
unfolding normalized_filter
apply_filters [] configuration config = ok config
apply_filters (key ∷ keys) configuration config = do
  names ← normalized_filter (get_or (get_or (list nil) key config) key configuration)
  apply_filters keys configuration (set key (list (strings names)) config)

abbrev pub filter_keys : List String
filter_keys =
    "filesystem_include" ∷ "filesystem_exclude" ∷ "network_include" ∷ "network_exclude" ∷ []

-- What is written: the services, the filters and the schema version.
unfoldable pub updated_config : Fields → List String → Fields → Result Failure Fields
updated_config configuration services config = do
  filtered ←
      apply_filters filter_keys configuration (set "services" (list (strings services)) config)
  ok (set "schema_version" (int (pos agent_schema_version)) filtered)
