-- ===== src/Agent/Safety/Commands.antt =====
-- The helper starts no command outside the fixed list.
use ha_pi_manager_integratio.Prelude.{◌≡◌, [], ◌∷◌, All, All-append}
use ha_pi_manager_integratio.Agent.World.{
  World, run, read_clock, ask, file_step, store_state, store_config, store_trust, write_trust,
  replace_agent, replace_ctl, replace_sudoers,
}
use ha_pi_manager_integratio.Agent.Library.{Library}
use ha_pi_manager_integratio.Agent.Keeps.{Keeps-bind}
use ha_pi_manager_integratio.Agent.Commands.{Allowed}
use ha_pi_manager_integratio.Agent.Frame.Steps.{Steps, Replacements}
use ha_pi_manager_integratio.Agent.Frame.Trust.{configure_trust-Keeps}
use ha_pi_manager_integratio.Agent.Frame.Upgrade.{upgrade_helper-Keeps}
use ha_pi_manager_integratio.Agent.Frame.All.{main-Keeps}
use ha_pi_manager_integratio.Agent.Main.{Operation, main}

abbrev OnlyAllowed : World → Type 0
OnlyAllowed w = All Allowed w.commands

allowed_steps : Steps OnlyAllowed
unfolding run read_clock ask file_step store_state store_config
allowed_steps = record {
  run_step = λ args a. record { at = λ w h. All-append Allowed w.commands (args ∷ []) h (a, tt) };
  clock_step = record { at = λ w h. h };
  ask_step = record { at = λ w h. h };
  io_step = record { at = λ w h. h };
  read_step = λ w h. h;
  state_step = λ value. record { at = λ w h. h };
  config_step = λ value. record { at = λ w h. h };
}

allowed_replacements : Replacements OnlyAllowed
unfolding replace_agent replace_ctl replace_sudoers
allowed_replacements = record {
  agent_step = λ source. record { at = λ w h. h };
  ctl_step = λ source. record { at = λ w h. h };
  sudoers_step = λ content. record { at = λ w h. h };
}

-- Whatever the operation and its arguments, and whatever the commands, the clock and the file system
-- answer, a run of the helper that starts with no command started ends with every command that it
-- started in the fixed list: apt, dpkg and systemd-run with fixed arguments for a job of the table,
-- systemctl with a valid service name or job unit, and visudo.
pub main-OnlyAllowed :
    (lib : Library) (operation : Operation) (w : World)
    → w.commands ≡ []
    → All Allowed (main lib operation w).1.commands
unfolding write_trust store_trust
main-OnlyAllowed lib operation w e =
    (main-Keeps lib allowed_steps operation
        (configure_trust-Keeps allowed_steps
          (λ value. Keeps-bind _ _ allowed_steps.io_step λ _. record { at = λ w h. h }) lib)
        (λ request _. upgrade_helper-Keeps allowed_steps allowed_replacements lib request)).at
      w (rw e tt)
