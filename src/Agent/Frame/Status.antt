-- ===== src/Agent/Frame/Status.antt =====
-- A poll keeps an invariant of the host.
use ha_pi_manager_integratio.Prelude.{String, List, [], ◌∷◌}
use ha_pi_manager_integratio.Agent.World.{World, Agent}
use ha_pi_manager_integratio.Agent.Library.{Library}
use ha_pi_manager_integratio.Agent.Keeps.{Keeps, Keeps-bind}
use ha_pi_manager_integratio.Agent.Commands.{show_tailscale}
use ha_pi_manager_integratio.Agent.Frame.Steps.{Steps, frame_steps}
use ha_pi_manager_integratio.Agent.Frame.Handlers.{job_state-Keeps}
use ha_pi_manager_integratio.Agent.Frame.Operations.{read_config-Keeps, service_status-Keeps}
use ha_pi_manager_integratio.Agent.Status.{
  Sensors, on_agent_error, optional_service_status, service_rows, all_rows, status,
}

module _ {A : Type 0} {P : World → Type 0} where
  Keeps-on_agent_error : (value : A) (m : Agent A) → Keeps P m → Keeps P (on_agent_error value m)
  unfolding on_agent_error
  Keeps-on_agent_error value m k = record { at = λ w h. k.at w h }

module _ {P : World → Type 0} (steps : Steps P) where
  optional_service_status-Keeps : Keeps P optional_service_status
  unfolding optional_service_status
  optional_service_status-Keeps = Keeps-on_agent_error _ _ (search (frame_steps, show_tailscale))

  service_rows-Keeps : (names services : List String) → Keeps P (service_rows names services)
  unfolding service_rows
  service_rows-Keeps [] services = search frame_steps
  service_rows-Keeps (name ∷ names) services =
      Keeps-bind _ _ (Keeps-on_agent_error _ _ (service_status-Keeps steps name services))
        λ row. Keeps-bind _ _ (service_rows-Keeps names services) λ rows. search frame_steps

  all_rows-Keeps : (services : List String) → Keeps P (all_rows services)
  unfolding all_rows
  all_rows-Keeps services =
      search (frame_steps, service_rows-Keeps, optional_service_status-Keeps) depth 8

  pub status-Keeps : (lib : Library) (sensors : Sensors) → Keeps P (status lib sensors)
  unfolding status
  status-Keeps lib sensors = Keeps-bind _ _ (read_config-Keeps steps) λ (config, services).
      Keeps-bind _ _ (search frame_steps) λ loaded. Keeps-bind _ _ (search frame_steps) λ reading.
        Keeps-bind _ _ (job_state-Keeps steps _)
          λ job. search (frame_steps, all_rows-Keeps) depth 24
