-- ===== src/Integration/Bootstrap/Apart.antt =====
-- The phases before the verification leave the connection with the new key alone.
use ha_pi_manager_integratio.Prelude.{String, ◌≡◌, refl, ◌∙◌, Option, List, [], ◌∷◌, ok, err}
use ha_pi_manager_integratio.Prelude.Preserves.{
  Preserves, Preserves-bind, Preserves-unless, Preserves-lift,
}
use ha_pi_manager_integratio.Prelude.Exec.{lift}
use ha_pi_manager_integratio.Errors.{PyError, Exc}
use ha_pi_manager_integratio.Models.{HostDiscovery, KeyMaterial, CommandResult}
use ha_pi_manager_integratio.Integration.Ssh.Client.{Client, Ssh}
use ha_pi_manager_integratio.Integration.Bootstrap.Session.{
  Library, Bundle, Session, Boot, on_client, on_keys, token, add_temporary, add_changed,
}
use ha_pi_manager_integratio.Integration.Bootstrap.Install.{
  checked, append_authorized_key, install_helper, sudo, activate_policy, unstage, stage_policy,
  install_sudoers, render_policy,
}
use ha_pi_manager_integratio.Integration.Bootstrap.Whole.{
  prepare, deploy, remove_path, remove_paths, cleanup,
}

-- The connection with the new key is `c`.
abbrev pub HasFinal : Client → Session → Type 0
HasFinal c s = s.final_client ≡ c

module _ {c : Client} {A : Type 0} where
  HasFinal-same :
      (m : Boot A)
      → ((s : Session) → (m s).1.final_client ≡ s.final_client)
      → Preserves (HasFinal c) m
  HasFinal-same m same = record { at = λ s held. same s ∙ held }

module _ {c : Client} {A : Type 0} where
  HasFinal-on_client : (m : Ssh A) → Preserves (HasFinal c) (on_client m)
  unfolding on_client
  HasFinal-on_client m = HasFinal-same _ (λ s. refl)

module _ (c : Client) where
  HasFinal-token : Preserves (HasFinal c) token
  unfolding token
  HasFinal-token = HasFinal-same _ (λ s. refl)

  HasFinal-add_temporary : (path : String) → Preserves (HasFinal c) (add_temporary path)
  unfolding add_temporary
  HasFinal-add_temporary path = HasFinal-same _ (λ s. refl)

  HasFinal-add_changed : (path : String) → Preserves (HasFinal c) (add_changed path)
  unfolding add_changed
  HasFinal-add_changed path = HasFinal-same _ (λ s. refl)

  HasFinal-checked :
      (e : PyError) (m : Boot CommandResult)
      → Preserves (HasFinal c) m
      → Preserves (HasFinal c) (checked e m)
  HasFinal-checked e m k = Preserves-bind _ _ k (λ result. Preserves-unless _ e)

  pub HasFinal-prepare : (discovery : HostDiscovery) → Preserves (HasFinal c) (prepare discovery)
  unfolding prepare on_keys
  HasFinal-prepare discovery = HasFinal-same _ (λ s. refl)

module _ (c : Client) (library : Library) where
  HasFinal-append_authorized_key :
      (public_key : String) → Preserves (HasFinal c) (append_authorized_key library public_key)
  unfolding append_authorized_key
  HasFinal-append_authorized_key public_key = HasFinal-checked c _ _ (HasFinal-on_client _)

  HasFinal-install_helper :
      (password : String) (source : Option String) (destination mode_text : String)
      → Preserves (HasFinal c) (install_helper library password source destination mode_text)
  unfolding install_helper
  HasFinal-install_helper password source destination mode_text =
      Preserves-bind _ _ (Preserves-lift _) (λ _. Preserves-bind _ _ (HasFinal-token c) (λ _.
        Preserves-bind _ _ (HasFinal-add_temporary c _) (λ _.
          Preserves-bind _ _ (HasFinal-on_client _)
            (λ _. HasFinal-checked c _ _ (HasFinal-on_client _)))))

  HasFinal-sudo :
      (password : String) (args : List String) → Preserves (HasFinal c) (sudo library password args)
  unfolding sudo
  HasFinal-sudo password args = HasFinal-on_client _

  HasFinal-activate_policy :
      (password temporary path : String)
      → Preserves (HasFinal c) (activate_policy library password temporary path)
  unfolding activate_policy
  HasFinal-activate_policy password temporary path =
      Preserves-bind _ _ (HasFinal-checked c _ _ (HasFinal-sudo password _)) (λ _.
        Preserves-bind _ _ (HasFinal-checked c _ _ (HasFinal-sudo password _))
          (λ _. HasFinal-checked c _ _ (HasFinal-sudo password _)))

  unstage-final :
      (password path : String) (r : Exc (Unit {0})) (s : Session)
      → s.final_client ≡ c
      → (unstage library password path (r, s)).1.final_client ≡ c
  unfolding unstage
  unstage-final password path (ok u) s held = held
  unstage-final password path (err e) s held =
      (HasFinal-sudo password ("/bin/rm" ∷ "-f" ∷ path ∷ [])).at s held

  HasFinal-stage_policy :
      (password temporary path : String)
      → Preserves (HasFinal c) (stage_policy library password temporary path)
  unfolding stage_policy
  HasFinal-stage_policy password temporary path = record {
    at = λ s held.
        unstage-final password path (activate_policy library password temporary path s).0
          (activate_policy library password temporary path s).1
          ((HasFinal-activate_policy password temporary path).at s held);
  }

  HasFinal-install_sudoers :
      (password content : String)
      → Preserves (HasFinal c) (install_sudoers library password content)
  unfolding install_sudoers
  HasFinal-install_sudoers password content = Preserves-bind _ _ (HasFinal-token c) (λ _.
      Preserves-bind _ _ (HasFinal-token c) (λ _.
        Preserves-bind _ _ (HasFinal-add_temporary c _) (λ _.
          Preserves-bind _ _ (HasFinal-on_client _) (λ _. HasFinal-stage_policy password _ _))))

  HasFinal-render_policy :
      (template : Option String) (username : String)
      → Preserves (HasFinal c) (render_policy library template username)
  unfolding render_policy lift
  HasFinal-render_policy template username = HasFinal-same _ (λ s. refl)

  pub HasFinal-deploy :
      (bundle : Bundle) (username password : String) (key : KeyMaterial)
      → Preserves (HasFinal c) (deploy library bundle username password key)
  unfolding deploy
  HasFinal-deploy bundle username password key =
      Preserves-bind _ _ (HasFinal-append_authorized_key _) (λ _.
        Preserves-bind _ _ (HasFinal-add_changed c _) (λ _.
          Preserves-bind _ _ (HasFinal-install_helper password _ _ _) (λ _.
            Preserves-bind _ _ (HasFinal-add_changed c _) (λ _.
              Preserves-bind _ _ (HasFinal-install_helper password _ _ _) (λ _.
                Preserves-bind _ _ (HasFinal-add_changed c _) (λ _.
                  Preserves-bind _ _ (HasFinal-render_policy _ _) (λ policy.
                    Preserves-bind _ _ (HasFinal-install_sudoers password policy)
                      (λ _. HasFinal-add_changed c _))))))))

module _ (library : Library) where
  remove_paths-final :
      (paths : List String) (s : Session)
      → (remove_paths library paths s).final_client ≡ s.final_client
  remove_paths-final [] s = refl
  remove_paths-final (path ∷ paths) s = remove_paths-final paths (remove_path library path s)

  -- The cleanup runs over the bootstrap connection only.
  pub cleanup-final : (s : Session) → (cleanup library s).final_client ≡ s.final_client
  unfolding cleanup
  cleanup-final s = remove_paths-final s.temporary_paths s
