-- ===== src/Agent/Configure.antt =====
-- `_configure_services`, with its reads and writes.
use ha_pi_manager_integratio.Prelude.{String}
use ha_pi_manager_integratio.Prelude.Exec.{◌>>=◌, ◌>>◌, pure, lift}
use ha_pi_manager_integratio.Json.{Value, dict, list, end, field, strings, get}
use ha_pi_manager_integratio.Agent.World.{Agent, file_step, write_config}
use ha_pi_manager_integratio.Agent.Library.{Library}
use ha_pi_manager_integratio.Agent.Services.{read_config}
use ha_pi_manager_integratio.Agent.Config.{
  decode_configuration, normalized_services, updated_config,
}

unfoldable pub configure_services : Library → String → Agent Value
configure_services lib encoded = do
  configuration ← lift (decode_configuration lib encoded)
  services ← lift (normalized_services configuration)
  (config, _) ← read_config
  updated ← lift (updated_config configuration services config)
  write_config updated
  file_step
  pure (
      dict (
        field "configured_services" (list (strings services)) (
          field "filesystem_include" (get "filesystem_include" updated) (
            field "filesystem_exclude" (get "filesystem_exclude" updated) (
              field "network_include" (get "network_include" updated)
                (field "network_exclude" (get "network_exclude" updated) end))))))
