-- ===== src/Integration/Bootstrap/Noted.antt =====
-- Each phase of a bootstrap notes the paths that it writes to.
use ha_pi_manager_integratio.Prelude.{
  cons_named, String, ◌==◌, ◌≡◌, refl, ap, sym, ◌∙◌, not, Option, none, List, ok, err, all,
}
use mathlib.Core.Path.{subst}
use ha_pi_manager_integratio.Prelude.Exec.{lift}
use ha_pi_manager_integratio.Prelude.Preserves.{
  Preserves, Preserves-lift, Preserves-pure, Preserves-unless, Preserves-bind,
}
use ha_pi_manager_integratio.Errors.{PyError, Exc}
use ha_pi_manager_integratio.Models.{HostDiscovery, KeyMaterial, CommandResult, result_ok}
use ha_pi_manager_integratio.Integration.Ssh.Client.{Client, close, Handshake, Ssh}
use ha_pi_manager_integratio.Integration.Bootstrap.Session.{
  Library, Bundle, Options, Session, Boot, on_final, token, add_changed, new_client, then_always,
  translating,
}
use ha_pi_manager_integratio.Integration.Bootstrap.Install.{
  checked, append_authorized_key, install_helper, install_sudoers, configure_remote, render_policy,
  sudo, activate_policy, unstage, stage_policy, policy_upload, policy_staging, helper_upload,
}
use ha_pi_manager_integratio.Integration.Bootstrap.Whole.{
  verified_status, verify, verify_and_close, deploy, phases,
}
use ha_pi_manager_integratio.Integration.Bootstrap.Tracked.{
  IsTracked, Listed, Preserves-run, Preserves-run_sudo, Preserves-noted_upload,
}

-- What touches neither the first client nor the list of paths keeps it.
kept :
    {A : Type 0} (m : Boot A)
    → ((s : Session) → ((m s).1.client ≡ s.client) × ((m s).1.temporary_paths ≡ s.temporary_paths))
    → Preserves IsTracked m
kept m same = record {
  at = λ s held. record {
    connected = ap (λ (c : Client). c.connected) (same s).0 ∙ held.connected;
    listed =
        subst (λ (c : Client). Listed (m s).1.temporary_paths c.uploads) (sym (same s).0)
          (subst (λ (paths : List String). Listed paths s.client.uploads) (sym (same s).1)
            held.listed);
    named = ap (all (λ path. not (path == ""))) (same s).1 ∙ held.named;
  };
}

Preserves-checked :
    (e : PyError) (m : Boot CommandResult)
    → Preserves IsTracked m
    → Preserves IsTracked (checked e m)
Preserves-checked e m k = Preserves-bind m _ k (λ result. Preserves-unless (result_ok result) e)

Preserves-append_authorized_key :
    (library : Library) (public_key : String)
    → Preserves IsTracked (append_authorized_key library public_key)
unfolding append_authorized_key
Preserves-append_authorized_key library public_key =
    Preserves-checked _ _ (Preserves-run library _ none)

Preserves-token : Preserves IsTracked token
unfolding token
Preserves-token = kept _ (λ s. (refl, refl))

Preserves-install_helper :
    (library : Library) (password : String) (source : Option String)
    (destination mode_text : String)
    → Preserves IsTracked (install_helper library password source destination mode_text)
unfolding install_helper helper_upload
Preserves-install_helper library password source destination mode_text =
    Preserves-bind _ _ (Preserves-lift _) (λ content. Preserves-bind _ _ Preserves-token (λ name.
      Preserves-noted_upload _ content 384 _ (cons_named _ _)
        (λ _. Preserves-checked _ _ (Preserves-run_sudo library _ password))))

Preserves-activate_policy :
    (library : Library) (password temporary path : String)
    → Preserves IsTracked (activate_policy library password temporary path)
unfolding activate_policy sudo
Preserves-activate_policy library password temporary path =
    Preserves-bind _ _ (Preserves-checked _ _ (Preserves-run_sudo library _ password)) (λ _.
      Preserves-bind _ _ (Preserves-checked _ _ (Preserves-run_sudo library _ password))
        (λ _. Preserves-checked _ _ (Preserves-run_sudo library _ password)))

unstage-IsTracked :
    (library : Library) (password path : String) (r : Exc (Unit {0})) (s : Session)
    → IsTracked s
    → IsTracked (unstage library password path (r, s)).1
unfolding unstage sudo
unstage-IsTracked library password path (ok u) s held = held
unstage-IsTracked library password path (err e) s held =
    (Preserves-run_sudo library _ password).at s held

Preserves-install_sudoers :
    (library : Library) (password content : String)
    → Preserves IsTracked (install_sudoers library password content)
unfolding install_sudoers stage_policy policy_upload
Preserves-install_sudoers library password content = Preserves-bind _ _ Preserves-token (λ name.
    Preserves-bind _ _ Preserves-token (λ other.
      Preserves-noted_upload _ content 384 _ (cons_named _ _) (λ _. record {
        at = λ s held. unstage-IsTracked library password _ _ _ (
            (Preserves-activate_policy library password (policy_upload name)
                (policy_staging other)).at
              s held);
      })))

Preserves-add_changed : (path : String) → Preserves IsTracked (add_changed path)
unfolding add_changed
Preserves-add_changed path = kept _ (λ s. (refl, refl))

Preserves-on_final : {A : Type 0} (m : Ssh A) → Preserves IsTracked (on_final m)
unfolding on_final
Preserves-on_final m = kept _ (λ s. (refl, refl))

Preserves-render_policy :
    (library : Library) (template : Option String) (username : String)
    → Preserves IsTracked (render_policy library template username)
unfolding render_policy translating lift
Preserves-render_policy library template username = kept _ (λ s. (refl, refl))

Preserves-deploy :
    (library : Library) (bundle : Bundle) (username password : String) (key : KeyMaterial)
    → Preserves IsTracked (deploy library bundle username password key)
unfolding deploy
Preserves-deploy library bundle username password key =
    Preserves-bind _ _ (Preserves-append_authorized_key library _) (λ _.
      Preserves-bind _ _ (Preserves-add_changed _) (λ _.
        Preserves-bind _ _ (Preserves-install_helper library password _ _ _) (λ _.
          Preserves-bind _ _ (Preserves-add_changed _) (λ _.
            Preserves-bind _ _ (Preserves-install_helper library password _ _ _) (λ _.
              Preserves-bind _ _ (Preserves-add_changed _) (λ _.
                Preserves-bind _ _ (Preserves-render_policy library _ _) (λ policy.
                  Preserves-bind _ _ (Preserves-install_sudoers library password policy)
                    (λ _. Preserves-add_changed _))))))))

Preserves-configure_remote :
    (library : Library) (key : KeyMaterial) (services : List String) (options : Options)
    → Preserves IsTracked (configure_remote library key services options)
unfolding configure_remote
Preserves-configure_remote library key services options =
    Preserves-bind _ _ (Preserves-checked _ _ (Preserves-on_final _))
      (λ _. Preserves-checked _ _ (Preserves-on_final _))

Preserves-verified_status :
    (library : Library) (discovery : HostDiscovery)
    → Preserves IsTracked (verified_status library discovery)
unfolding verified_status
Preserves-verified_status library discovery = Preserves-bind _ _ (Preserves-on_final _) (λ result.
    Preserves-bind _ _ (Preserves-unless _ _) (λ _.
      Preserves-bind _ _ (Preserves-lift _) (λ payload.
        Preserves-bind _ _ (Preserves-lift _)
          (λ status. Preserves-bind _ _ (Preserves-unless _ _) (λ _. Preserves-pure status)))))

Preserves-verify_and_close :
    (library : Library) (discovery : HostDiscovery) (handshake : Handshake) (key : KeyMaterial)
    (services : List String) (options : Options)
    → Preserves IsTracked (verify_and_close library discovery handshake key services options)
unfolding verify_and_close verify new_client then_always close
Preserves-verify_and_close library discovery handshake key services options =
    Preserves-bind _ _ (kept _ (λ s. (refl, refl))) (λ _. record {
      at = λ s held.
          let h =
            (Preserves-bind _ _ (Preserves-on_final _) (λ _.
                Preserves-bind _ _ (Preserves-configure_remote library key services options)
                  (λ _. Preserves-verified_status library discovery))).at
              s held in
          record { connected = h.connected; listed = h.listed; named = h.named };
    })

pub Preserves-phases :
    (library : Library) (bundle : Bundle) (discovery : HostDiscovery) (handshake : Handshake)
    (username password : String) (key : KeyMaterial) (services : List String) (options : Options)
    → Preserves IsTracked
        (phases library bundle discovery handshake username password key services options)
unfolding phases
Preserves-phases library bundle discovery handshake username password key services options =
    Preserves-bind _ _ (Preserves-deploy library bundle username password key)
      (λ _. Preserves-verify_and_close library discovery handshake key services options)
