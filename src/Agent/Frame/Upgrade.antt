-- ===== src/Agent/Frame/Upgrade.antt =====
-- An upgrade keeps an invariant that its replacements keep.
use ha_pi_manager_integratio.Prelude.{ℕ, String, Option, none, some, List}
use ha_pi_manager_integratio.Agent.World.{World}
use ha_pi_manager_integratio.Agent.Library.{Library}
use ha_pi_manager_integratio.Agent.Keeps.{Keeps}
use ha_pi_manager_integratio.Agent.Commands.{visudo}
use ha_pi_manager_integratio.Agent.Frame.Steps.{Steps, Replacements, frame_steps}
use ha_pi_manager_integratio.Agent.Sudoers.{activate_policy, install_sudoers_policy}
use ha_pi_manager_integratio.Agent.Upgrade.{
  Request, decode_sources, replace_files, install_policy, authorised_sources, upgrade_helper,
}

module _ {P : World → Type 0} (steps : Steps P) where
  pub decode_sources-Keeps :
      (lib : Library) (request : Request) (secret : String)
      → Keeps P (decode_sources lib request secret)
  unfolding decode_sources
  decode_sources-Keeps lib request secret = search frame_steps depth 24

  pub authorised_sources-Keeps :
      (lib : Library) (request : Request) (secret : Option String)
      → Keeps P (authorised_sources lib request secret)
  authorised_sources-Keeps lib request none = search frame_steps
  authorised_sources-Keeps lib request (some secret) = decode_sources-Keeps lib request secret

module _ {P : World → Type 0} (steps : Steps P) (replacements : Replacements P) where
  pub activate_policy-Keeps :
      (lib : Library) (content : String) → Keeps P (activate_policy lib content)
  unfolding activate_policy
  activate_policy-Keeps lib content =
      search (frame_steps, visudo, replacements.sudoers_step) depth 24

  pub install_sudoers_policy-Keeps :
      (lib : Library) (content version : String)
      → Keeps P (install_sudoers_policy lib content version)
  unfolding install_sudoers_policy
  install_sudoers_policy-Keeps lib content version =
      search (frame_steps, activate_policy-Keeps) depth 24

  pub install_policy-Keeps :
      (lib : Library) (request : Request) (policy : Option (List ℕ × String))
      → Keeps P (install_policy lib request policy)
  install_policy-Keeps lib request none = search frame_steps
  install_policy-Keeps lib request (some (_, text)) =
      install_sudoers_policy-Keeps lib text request.version

  pub replace_files-Keeps :
      (lib : Library) (agent ctl : List ℕ) → Keeps P (replace_files lib agent ctl)
  unfolding replace_files
  replace_files-Keeps lib agent ctl =
      search (frame_steps, replacements.agent_step, replacements.ctl_step) depth 16

  pub upgrade_helper-Keeps :
      (lib : Library) (request : Request) → Keeps P (upgrade_helper lib request)
  unfolding upgrade_helper
  upgrade_helper-Keeps lib request =
      search (frame_steps, authorised_sources-Keeps, replace_files-Keeps, install_policy-Keeps)
        depth 24
