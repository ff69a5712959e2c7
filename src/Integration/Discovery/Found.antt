-- ===== src/Integration/Discovery/Found.antt =====
-- What holds of a host that discovery accepts.
use ha_pi_manager_integratio.Prelude.{
  String, ◌==◌, ◌≡◌, refl, ap, sym, ◌∙◌, true, false, not, Option, none, some, List, [], ◌∷◌, ok,
  arith, eq_iff, All, Bool-cases, inl, inr, strip, lstrip, rstrip, is_space,
}
use mathlib.Core.Path.{subst}
use ha_pi_manager_integratio.Prelude.Exec.{◌>>=◌, gets, unless}
use ha_pi_manager_integratio.Prelude.Preserves.{
  Preserves, Preserves-unless, Preserves-lift, Preserves-gets,
}
use ha_pi_manager_integratio.Prelude.Returns.{Returns, Returns-behind, Returns-pure, unless-ok}
use ha_pi_manager_integratio.Integration.Ssh.Answered.{Follows-self}
use ha_pi_manager_integratio.Prelude.Results.{value_or}
use ha_pi_manager_integratio.Errors.{PyError}
use ha_pi_manager_integratio.Models.{HostDiscovery}
use ha_pi_manager_integratio.Agent.Services.{contains}
use ha_pi_manager_integratio.Contract.Status.{is_machine_id}
use ha_pi_manager_integratio.Integration.Ssh.Client.{Client, Utf8, is_blank, send, run}
use ha_pi_manager_integratio.Integration.Discovery.{
  architectures, text_of, read_architecture, read_machine_id, discover_host,
}
use ha_pi_manager_integratio.Integration.Discovery.Kept.{
  privileged-Preserves, required_output-Preserves, installed_version-Preserves, read_os-Preserves,
  read_architecture-Preserves, read_machine_id-Preserves, probe-Preserves,
}
use ha_pi_manager_integratio.Integration.Discovery.Granted.{IsGranted, discover_host-IsGranted}

-- A client that has seen the key
abbrev HasKey : Option String → Client → Type 0
HasKey key c = c.fingerprint ≡ key

run-fingerprint :
    (utf8 : Utf8) (args : List String) (input : Option String) (c : Client)
    → (run utf8 args input c).1.fingerprint ≡ c.fingerprint
unfolding run send unless ◌>>=◌
run-fingerprint utf8 args input c = ground arith

module _ (utf8 : Utf8) (key : Option String) where
  HasKey-run :
      (args : List String) (input : Option String) → Preserves (HasKey key) (run utf8 args input)
  HasKey-run args input = record { at = λ c held. run-fingerprint utf8 args input c ∙ held }

  known_architecture :
      Returns
        (HasKey key)
        (λ architecture. contains architecture architectures ≡ true)
        (read_architecture utf8)
  unfolding read_architecture
  known_architecture =
      Returns-behind _ _ (required_output-Preserves utf8 HasKey-run _ _) (λ _ output _ _.
        Returns-behind _ _ (Preserves-unless _ _) (λ c u _ e. Returns-pure _ (unless-ok _ _ c u e)))

  valid_machine_id :
      Returns (HasKey key) (λ machine_id. is_machine_id machine_id ≡ true) (read_machine_id utf8)
  unfolding read_machine_id
  valid_machine_id =
      Returns-behind _ _ (required_output-Preserves utf8 HasKey-run _ _) (λ _ output _ _.
        Returns-behind _ _ (Preserves-unless _ _) (λ c u _ e. Returns-pure _ (unless-ok _ _ c u e)))

-- What holds of every text of a list holds of a text that the list contains.
of_contained :
    (P : String → Type 0) (name : String) (names : List String)
    → All P names
    → contains name names ≡ true
    → P name
of_contained P name [] h e = absurd (cc)
of_contained P name (n ∷ names) (h, rest) e = elim (Bool-cases (n == name)) [
  | inl same ↦ subst P (ground (arith, same, eq_iff n name)) h
  | inr other ↦ of_contained P name names rest (ground (arith, other))
]

-- A known architecture has no white space around it.
strip-architecture :
    (name : String)
    → contains name architectures ≡ true
    → contains (strip name) architectures ≡ true
unfolding strip lstrip rstrip is_space
strip-architecture name =
    of_contained (λ known. contains (strip known) architectures ≡ true) name architectures
      (refl, (refl, (refl, (refl, (refl, (refl, (refl, (refl, tt))))))))

-- What holds of the record alone
pub record IsDescribed (key : Option String) (found : HostDiscovery) : Type 0 where
  pub machine_valid : is_machine_id found.machine_id ≡ true
  pub architecture_known : contains found.architecture architectures ≡ true
  pub key_kept : key ≡ some found.fingerprint
  pub key_present : (found.fingerprint == "") ≡ false
  pub sudo_works : found.sudo_available ≡ true

-- A discovery names a machine, a supported architecture, the key that the client saw, and root rights,
-- which a command of the client has shown.
pub record IsDiscovered (utf8 : Utf8) (password : Option String) (start now : Client)
    (found : HostDiscovery) : Type 0 where
  pub described : IsDescribed start.fingerprint found
  pub granted : IsGranted utf8 password start now

read_key :
    (c : Client) (seen key : Option String)
    → c.fingerprint ≡ key
    → (gets {E = PyError} (λ (x : Client). x.fingerprint) c).0 ≡ ok seen
    → seen ≡ key
unfolding gets
read_key c seen key held e = sym (ap (value_or key) e) ∙ held

some_text :
    (key : Option String)
    → not (is_blank key) ≡ true
    → (key ≡ some (text_of key)) × ((text_of key == "") ≡ false)
some_text none h = absurd (cc)
some_text (some text) h = (refl, ground arith)

module _ (utf8 : Utf8) (password : Option String) (token : String) (key : Option String) where
  discover_host-Returns : Returns (HasKey key) (IsDescribed key) (discover_host utf8 password token)
  unfolding discover_host
  discover_host-Returns = Returns-behind _ _ (Preserves-gets _) (λ c noted held read.
      Returns-behind _ _ (Preserves-unless _ _) (λ c1 u _ present.
        Returns-behind _ _ (read_os-Preserves utf8 (HasKey-run utf8 key)) (λ _ info _ _.
          Returns-behind _ _ (read_architecture-Preserves utf8 (HasKey-run utf8 key))
            (λ c2 architecture held2 known.
              Returns-behind _ _ (required_output-Preserves utf8 (HasKey-run utf8 key) _ _)
                (λ _ python _ _.
                  Returns-behind _ _ (required_output-Preserves utf8 (HasKey-run utf8 key) _ _)
                    (λ _ systemd _ _.
                      Returns-behind _ _ (required_output-Preserves utf8 (HasKey-run utf8 key) _ _)
                        (λ _ apt _ _.
                          Returns-behind _ _
                            (required_output-Preserves utf8 (HasKey-run utf8 key) _ _)
                            (λ _ hostname _ _.
                              Returns-behind _ _
                                (read_machine_id-Preserves utf8 (HasKey-run utf8 key))
                                (λ c3 machine_id held3 valid.
                                  Returns-behind _ _
                                    (privileged-Preserves utf8 (HasKey-run utf8 key) password _)
                                    (λ _ sudo _ _.
                                      Returns-behind _ _ (Preserves-unless _ _) (λ c4 v _ works.
                                        Returns-behind _ _ (HasKey-run utf8 key _ none)
                                          (λ _ helper _ _.
                                            Returns-behind _ _
                                              (installed_version-Preserves utf8
                                                (HasKey-run utf8 key) _)
                                              (λ _ version _ _.
                                                Returns-behind _ _
                                                  (probe-Preserves utf8 (HasKey-run utf8 key)
                                                    password token)
                                                  (λ _ writable _ _.
                                                    Returns-behind _ _ (Preserves-lift _)
                                                      (λ _ systemd_line _ _.
                                                        Returns-behind _ _ (Preserves-lift _)
                                                          (λ _ apt_line _ _.
                                                            Returns-behind _ _ (Preserves-gets _)
                                                            (λ c5 seen held5 read5.
                                                            let same =
                                                            read_key c5 seen key held5 read5 in
                                                            let kept = some_text key (
                                                            ap (λ k. not (is_blank k))
                                                            (sym (read_key c noted key held read))
                                                            ∙ unless-ok _ _ c1 u present) in
                                                            Returns-pure _ (record {
                                                            machine_valid =
                                                            (valid_machine_id utf8 key).at c3
                                                            machine_id held3 valid;
                                                            architecture_known =
                                                            strip-architecture architecture (
                                                            (known_architecture utf8 key).at c2
                                                            architecture held2 known);
                                                            key_kept =
                                                            kept.0
                                                            ∙ ap (λ k. some (text_of k)) (sym same);
                                                            key_present =
                                                            ap (λ k. text_of k == "") same ∙ kept.1;
                                                            sudo_works = unless-ok _ _ c4 v works;
                                                            }))))))))))))))))))

-- A host that discovery accepts has a valid machine identity and a supported architecture, and is the
-- one whose key the client saw. The client has sent `/usr/bin/true` through `sudo`, with the password if
-- there is one, and the outcome at the place of that command ended with 0.
pub discover_host-IsDiscovered :
    (utf8 : Utf8) (password : Option String) (token : String) (c : Client) (found : HostDiscovery)
    → (discover_host utf8 password token c).0 ≡ ok found
    → IsDiscovered utf8 password c (discover_host utf8 password token c).1 found
discover_host-IsDiscovered utf8 password token c found e = record {
  described = (discover_host-Returns utf8 password token c.fingerprint).at c found refl e;
  granted = (discover_host-IsGranted utf8 password c token).at c found (Follows-self c) e;
}
