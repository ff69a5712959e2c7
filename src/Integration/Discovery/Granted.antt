-- ===== src/Integration/Discovery/Granted.antt =====
-- The command with root rights that a discovery rests on.
use ha_pi_manager_integratio.Prelude.{
  String, ◌==◌, ◌≡◌, true, Option, none, some, List, [], ◌∷◌, ok, arith, Bool-cases, inl, inr,
  append,
}
use ha_pi_manager_integratio.Prelude.Exec.{◌>>=◌, unless}
use ha_pi_manager_integratio.Prelude.Preserves.{
  Preserves, Preserves-bind, Preserves-unless, Preserves-lift, Preserves-gets, Preserves-pure,
}
use ha_pi_manager_integratio.Prelude.Returns.{
  unless-ok, Yields, Yields-bind, Yields-behind, Yields-kept,
}
use ha_pi_manager_integratio.Integration.Ssh.Answered.{
  Follows, Answered, Follows-run, Answered-run, run-Answered,
}
use ha_pi_manager_integratio.Models.{CommandResult, result_ok}
use ha_pi_manager_integratio.Integration.Ssh.Client.{Client, Utf8, run, run_sudo, run_sudo_nopass}
use ha_pi_manager_integratio.Integration.Discovery.{privileged, discover_host}
use ha_pi_manager_integratio.Integration.Discovery.Kept.{
  required_output-Preserves, installed_version-Preserves, read_os-Preserves,
  read_architecture-Preserves, read_machine_id-Preserves, probe-Preserves,
}

-- How the discovery asks for a command with root rights: through `sudo` with the bootstrap password as
-- its input, or without one where there is no password.
abbrev pub sudo_command : Option String → List String → List String
sudo_command none args = "/usr/bin/sudo" ∷ "-n" ∷ "--" ∷ args
sudo_command (some password) args = "/usr/bin/sudo" ∷ "-S" ∷ "-p=" ∷ "--" ∷ args

abbrev pub sudo_input : Option String → Option String
sudo_input none = none
sudo_input (some password) = some (append password "\n")

-- Since `start` the client has sent `/usr/bin/true` through `sudo`, and it ended with 0.
pub record IsGranted (utf8 : Utf8) (password : Option String) (start now : Client) : Type 0 where
  pub answer : CommandResult
  pub answered :
      Answered utf8 start now
        (sudo_command password ("/usr/bin/true" ∷ []))
        (sudo_input password)
        answer
  pub succeeded : result_ok answer ≡ true

-- The answer to a privileged command is that of the command under `sudo`.
privileged-Answered :
    (utf8 : Utf8) (password : Option String) (start c : Client) (args : List String)
    (answer : CommandResult)
    → Follows start c
    → (privileged utf8 password args c).0 ≡ ok answer
    → Answered utf8 start
        (privileged utf8 password args c).1
        (sudo_command password args)
        (sudo_input password)
        answer
unfolding privileged run_sudo run_sudo_nopass ◌>>=◌ unless
privileged-Answered utf8 none start c args answer h e = run-Answered utf8 _ none start c answer h e
privileged-Answered utf8 (some text) start c args answer h e = elim (Bool-cases (text == "")) [
  | inl empty ↦ absurd (ground (arith, empty))
  | inr other ↦ rw other (run-Answered utf8 _ _ start c answer h (ground (arith, other, e)))
]

module _ (utf8 : Utf8) (password : Option String) (start : Client) where
  -- The client has the answer of the command that asks for root rights.
  abbrev Asked : CommandResult → Client → Type 0
  Asked answer now =
      Answered utf8 start now (sudo_command password ("/usr/bin/true" ∷ [])) (sudo_input password)
        answer

  Asked-run :
      (answer : CommandResult) (args : List String) (input : Option String)
      → Preserves (Asked answer) (run utf8 args input)
  Asked-run answer args input =
      Answered-run utf8 args input start (sudo_command password ("/usr/bin/true" ∷ []))
        (sudo_input password) answer

  Follows-any :
      (args : List String) (input : Option String) → Preserves (Follows start) (run utf8 args input)
  Follows-any args input = Follows-run utf8 args input start

  pub discover_host-IsGranted :
      (token : String)
      → Yields
          (Follows start)
          (λ _. IsGranted utf8 password start)
          (discover_host utf8 password token)
  unfolding discover_host
  discover_host-IsGranted token = Yields-behind _ _ (Preserves-gets _) (λ _ noted _ _.
      Yields-behind _ _ (Preserves-unless _ _) (λ _ _ _ _.
        Yields-behind _ _ (read_os-Preserves utf8 Follows-any) (λ _ info _ _.
          Yields-behind _ _ (read_architecture-Preserves utf8 Follows-any) (λ _ architecture _ _.
            Yields-behind _ _ (required_output-Preserves utf8 Follows-any _ _) (λ _ python _ _.
              Yields-behind _ _ (required_output-Preserves utf8 Follows-any _ _) (λ _ systemd _ _.
                Yields-behind _ _ (required_output-Preserves utf8 Follows-any _ _) (λ _ apt _ _.
                  Yields-behind _ _ (required_output-Preserves utf8 Follows-any _ _)
                    (λ _ hostname _ _.
                      Yields-behind _ _ (read_machine_id-Preserves utf8 Follows-any)
                        (λ _ machine_id _ _. Yields-bind {R = Asked} _ _ (λ c answer held asked. (
                          privileged-Answered utf8 password start c ("/usr/bin/true" ∷ []) answer
                              held asked,
                          Yields-behind _ _ (Preserves-unless _ _) (λ c1 u now works.
                              Yields-kept _
                                (Preserves-bind _ _ (Asked-run answer _ none) (λ helper.
                                  Preserves-bind _ _
                                    (installed_version-Preserves utf8 (Asked-run answer) _)
                                    (λ version.
                                      Preserves-bind _ _
                                        (probe-Preserves utf8 (Asked-run answer) password token)
                                        (λ writable.
                                          Preserves-bind _ _ (Preserves-lift _) (λ systemd_line.
                                            Preserves-bind _ _ (Preserves-lift _) (λ apt_line.
                                              Preserves-bind _ _ (Preserves-gets _)
                                                (λ seen. Preserves-pure _)))))))
                                (λ now answered. record {
                                  answer = answer;
                                  answered = answered;
                                  succeeded = unless-ok _ _ c1 u works;
                                })),
                        )))))))))))
