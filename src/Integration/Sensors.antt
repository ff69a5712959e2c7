-- ===== src/Integration/Sensors.antt =====
-- custom_components/pi_manager/sensor.py: the entities of file systems and of network interfaces, which
-- come with the statuses.
pub mod Created
use ha_pi_manager_integratio.Prelude.{
  String, Bool, true, false, List, [], ◌∷◌, ◌++◌, map, if◌then◌else◌,
}
use ha_pi_manager_integratio.Models.{HostStatus, FilesystemInfo, NetworkInfo}
use ha_pi_manager_integratio.Agent.Services.{contains}

-- The names that are not known yet, in their order, each once
unfoldable pub new_names : List String → List String → List String
new_names known [] = []
new_names known (name ∷ names) =
    let rest = new_names known names in
    let more = name ∷ new_names (name ∷ known) names in if contains name known then rest else more

-- What is known behind them
unfoldable pub known_after : List String → List String → List String
known_after known [] = known
known_after known (name ∷ names) =
    let rest = known_after known names in
    let more = known_after (name ∷ known) names in if contains name known then rest else more

abbrev pub mounts : HostStatus → List String
mounts status = map (λ (item : FilesystemInfo). item.mount) status.filesystems

abbrev pub interfaces : HostStatus → List String
interfaces status = map (λ (item : NetworkInfo). item.interface) status.network

-- `_filesystem_entities`: the mounts that get a sensor, and the known mounts
unfoldable pub filesystem_entities : HostStatus → List String → List String × List String
unfolding new_names known_after
filesystem_entities status known =
    (new_names known (mounts status), known_after known (mounts status))

-- A sensor of an interface, with its direction
abbrev with_directions : List String → List (String × String)
with_directions [] = []
with_directions (name ∷ names) = (name, "rx") ∷ (name, "tx") ∷ with_directions names

-- `_network_entities`
unfoldable pub network_entities : HostStatus → List String → List (String × String) × List String
unfolding new_names known_after
network_entities status known =
    (with_directions (new_names known (interfaces status)), known_after known (interfaces status))

-- `add_dynamic` for a run of statuses: all mounts that get a sensor
unfoldable pub created_mounts : List String → List HostStatus → List String
unfolding filesystem_entities
created_mounts known [] = []
created_mounts known (status ∷ statuses) =
    (filesystem_entities status known).0
    ++ created_mounts (filesystem_entities status known).1 statuses
