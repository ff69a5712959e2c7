-- ===== src/Integration/Discovery/Kept.antt =====
-- Each part of the discovery keeps what every command keeps.
use ha_pi_manager_integratio.Prelude.{String, Bool, true, false, Option, none, some, List}
use ha_pi_manager_integratio.Prelude.Preserves.{
  Preserves, Preserves-bind, Preserves-unless, Preserves-pure,
}
use ha_pi_manager_integratio.Integration.Ssh.Client.{Client, Utf8, run, run_sudo, run_sudo_nopass}
use ha_pi_manager_integratio.Integration.Discovery.{
  required_output, privileged, installed_version, read_os, read_architecture, read_machine_id,
  probe,
}

module _ (utf8 : Utf8) {P : Client → Type 0}
    (keeps : (args : List String) (input : Option String) → Preserves P (run utf8 args input)) where
  pub privileged-Preserves :
      (password : Option String) (args : List String) → Preserves P (privileged utf8 password args)
  unfolding privileged run_sudo run_sudo_nopass
  privileged-Preserves none args = keeps _ none
  privileged-Preserves (some password) args =
      Preserves-bind _ _ (Preserves-unless _ _) (λ _. keeps _ _)

  pub required_output-Preserves :
      (args : List String) (category : String) → Preserves P (required_output utf8 args category)
  unfolding required_output
  required_output-Preserves args category = Preserves-bind _ _ (keeps args none) (λ result.
      Preserves-bind _ _ (Preserves-unless _ _)
        (λ _. Preserves-bind _ _ (Preserves-unless _ _) (λ _. Preserves-pure _)))

  pub installed_version-Preserves :
      (installed : Bool) → Preserves P (installed_version utf8 installed)
  unfolding installed_version
  installed_version-Preserves false = Preserves-pure _
  installed_version-Preserves true = Preserves-bind _ _ (keeps _ none) (λ _. Preserves-pure _)

  pub read_os-Preserves : Preserves P (read_os utf8)
  unfolding read_os
  read_os-Preserves = Preserves-bind _ _ (keeps _ none) (λ result.
      Preserves-bind _ _ (Preserves-unless _ _)
        (λ _. Preserves-bind _ _ (Preserves-unless _ _) (λ _. Preserves-pure _)))

  pub read_architecture-Preserves : Preserves P (read_architecture utf8)
  unfolding read_architecture
  read_architecture-Preserves =
      Preserves-bind _ _ (required_output-Preserves _ _)
        (λ _. Preserves-bind _ _ (Preserves-unless _ _) (λ _. Preserves-pure _))

  pub read_machine_id-Preserves : Preserves P (read_machine_id utf8)
  unfolding read_machine_id
  read_machine_id-Preserves =
      Preserves-bind _ _ (required_output-Preserves _ _)
        (λ _. Preserves-bind _ _ (Preserves-unless _ _) (λ _. Preserves-pure _))

  pub probe-Preserves :
      (password : Option String) (token : String) → Preserves P (probe utf8 password token)
  unfolding probe
  probe-Preserves password token =
      Preserves-bind _ _ (privileged-Preserves password _)
        (λ _. Preserves-bind _ _ (privileged-Preserves password _) (λ _. Preserves-pure _))
