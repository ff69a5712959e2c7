-- ===== src/Agent/Frame/Steps.antt =====
-- What an invariant of the host must satisfy to be kept by the operations of the helper: one fact
-- for each primitive step.
use ha_pi_manager_integratio.Prelude.{ℕ, String, List}
use ha_pi_manager_integratio.Json.{Fields}
use ha_pi_manager_integratio.Agent.World.{
  World, next_read, run, read_clock, ask, file_step, load_state, load_config, load_trust,
  store_state, store_config, write_state, write_config, replace_agent, replace_ctl, replace_sudoers,
}
use ha_pi_manager_integratio.Agent.Keeps.{Keeps, Keeps-bind, keeps_rules}
use ha_pi_manager_integratio.Agent.Commands.{Allowed}

-- The steps that every operation may take
pub record Steps (P : World → Type 0) : Type 0 where
  pub run_step : (args : List String) → Allowed args → Keeps P (run args)
  pub clock_step : Keeps P read_clock
  pub ask_step : Keeps P ask
  pub io_step : Keeps P file_step
  pub read_step : (w : World) → P w → P (next_read w)
  pub state_step : (value : Fields) → Keeps P (store_state value)
  pub config_step : (value : Fields) → Keeps P (store_config value)

-- The replacements that only an upgrade makes
pub record Replacements (P : World → Type 0) : Type 0 where
  pub agent_step : (source : List ℕ) → Keeps P (replace_agent source)
  pub ctl_step : (source : List ℕ) → Keeps P (replace_ctl source)
  pub sudoers_step : (content : String) → Keeps P (replace_sudoers content)

module _ {P : World → Type 0} (s : Steps P) where
  pub load_state-Keeps : (default : Fields) → Keeps P (load_state default)
  unfolding load_state
  load_state-Keeps default = record { at = λ w h. s.read_step w h }

  pub load_config-Keeps : (default : Fields) → Keeps P (load_config default)
  unfolding load_config
  load_config-Keeps default = record { at = λ w h. s.read_step w h }

  pub load_trust-Keeps : (default : Fields) → Keeps P (load_trust default)
  unfolding load_trust
  load_trust-Keeps default = record { at = λ w h. s.read_step w h }

  pub run-Keeps : (args : List String) → Allowed args → Keeps P (run args)
  run-Keeps = s.run_step

  pub read_clock-Keeps : Keeps P read_clock
  read_clock-Keeps = s.clock_step

  pub ask-Keeps : Keeps P ask
  ask-Keeps = s.ask_step

  pub file_step-Keeps : Keeps P file_step
  file_step-Keeps = s.io_step

  pub write_state-Keeps : (value : Fields) → Keeps P (write_state value)
  unfolding write_state
  write_state-Keeps value = Keeps-bind _ _ s.io_step λ _. s.state_step value

  pub write_config-Keeps : (value : Fields) → Keeps P (write_config value)
  unfolding write_config
  write_config-Keeps value = Keeps-bind _ _ s.io_step λ _. s.config_step value

pub ruleset frame_steps = (
  keeps_rules, run-Keeps, read_clock-Keeps, ask-Keeps, file_step-Keeps, load_state-Keeps,
  load_config-Keeps, load_trust-Keeps, write_state-Keeps, write_config-Keeps,
)
