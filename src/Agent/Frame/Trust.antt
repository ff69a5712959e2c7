-- ===== src/Agent/Frame/Trust.antt =====
-- `configure_trust` keeps an invariant that a write of the trust file keeps.
use ha_pi_manager_integratio.Prelude.{String}
use ha_pi_manager_integratio.Json.{Value, str, Fields}
use ha_pi_manager_integratio.Agent.World.{World, write_trust}
use ha_pi_manager_integratio.Agent.Library.{Library}
use ha_pi_manager_integratio.Agent.Keeps.{Keeps}
use ha_pi_manager_integratio.Agent.Frame.Steps.{Steps, frame_steps}
use ha_pi_manager_integratio.Agent.Trust.{install_secret, configure_trust}

module _ {P : World → Type 0} (steps : Steps P)
    (writes : (value : Fields) → Keeps P (write_trust value)) where
  install_secret-Keeps :
      (secret : String) (existing : Value) → Keeps P (install_secret secret existing)
  unfolding install_secret
  install_secret-Keeps secret (str existing) = search frame_steps depth 8
  install_secret-Keeps secret _ = search (frame_steps, writes) depth 8

  pub configure_trust-Keeps :
      (lib : Library) (secret : String) → Keeps P (configure_trust lib secret)
  unfolding configure_trust
  configure_trust-Keeps lib secret = search (frame_steps, install_secret-Keeps) depth 8
