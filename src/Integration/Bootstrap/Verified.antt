-- ===== src/Integration/Bootstrap/Verified.antt =====
-- What holds of the host when a bootstrap returns.
use ha_pi_manager_integratio.Prelude.{String, ◌≡◌, refl, ap, sym, List, ok, err}
use mathlib.Core.Path.{subst}
use ha_pi_manager_integratio.Prelude.Preserves.{Preserves-unless, Preserves-lift, Preserves-gets}
use ha_pi_manager_integratio.Prelude.Returns.{Yields, Yields-bind, Yields-behind, Yields-pure}
use ha_pi_manager_integratio.Errors.{PyError, Exc}
use ha_pi_manager_integratio.Models.{HostDiscovery, HostStatus, BootstrapResult, KeyMaterial}
use ha_pi_manager_integratio.Integration.Ssh.Client.{Client, Handshake, close}
use ha_pi_manager_integratio.Integration.Bootstrap.Session.{
  Library, Bundle, Options, Session, Boot, new_client, then_always, translating, map_error,
}
use ha_pi_manager_integratio.Integration.Bootstrap.Apart.{
  HasFinal, HasFinal-prepare, HasFinal-deploy, cleanup-final,
}
use ha_pi_manager_integratio.Integration.Bootstrap.Whole.{
  verify, verify_and_close, phases, cleanup, async_bootstrap, deployment_error,
}
use ha_pi_manager_integratio.Integration.Bootstrap.Opened.{
  fresh_client, IsVerified, Open, Open-configure_remote, verified_status-IsVerified, connect-Open,
}

closed-IsVerified :
    (library : Library) (machine_id fingerprint : String) (start now : Client)
    → IsVerified library machine_id fingerprint start now
    → IsVerified library machine_id fingerprint start (close now).1
unfolding close
closed-IsVerified library machine_id fingerprint start now v = record {
  trusted = v.trusted;
  answer = v.answer;
  answered = record {
    prior = v.answered.prior;
    later = v.answered.later;
    sent = v.answered.sent;
    given = v.answered.given;
  };
  succeeded = v.succeeded;
  payload = v.payload;
  decoded = v.decoded;
  status = v.status;
  parsed = v.parsed;
  same_machine = v.same_machine;
}

module _ (library : Library) (discovery : HostDiscovery) (handshake : Handshake)
    (start : Client) where
  -- What the run leaves behind a status
  abbrev Deployed : Session → Type 0
  Deployed s =
      IsVerified library discovery.machine_id discovery.fingerprint (fresh_client start)
        s.final_client

  verify-IsVerified :
      (key : KeyMaterial) (services : List String) (options : Options)
      → Yields
          (HasFinal (fresh_client start))
          (λ _. Deployed)
          (verify library discovery handshake key services options)
  unfolding verify
  verify-IsVerified key services options =
      Yields-bind {R = λ _. Open library discovery.fingerprint (fresh_client start)} _ _
        (λ s u fresh e. (
          connect-Open library discovery.fingerprint handshake s u start fresh e,
          Yields-behind _ _
              (Open-configure_remote library discovery.fingerprint (fresh_client start) key services
                options)
              (λ _ _ _ _.
                verified_status-IsVerified library discovery.fingerprint (fresh_client start)
                  discovery),
        ))

  verify_and_close-IsVerified :
      (key : KeyMaterial) (services : List String) (options : Options)
      → Yields
          (HasFinal start)
          (λ _. Deployed)
          (verify_and_close library discovery handshake key services options)
  unfolding verify_and_close new_client then_always
  verify_and_close-IsVerified key services options =
      Yields-bind {R = λ _. HasFinal (fresh_client start)} _ _ (λ s u held _. (
        ap fresh_client held,
        record {
          at = λ s1 status fresh e.
              closed-IsVerified library discovery.machine_id discovery.fingerprint
                (fresh_client start) _
                ((verify-IsVerified key services options).at s1 status fresh e);
        },
      ))

  phases-IsVerified :
      (bundle : Bundle) (username password : String) (key : KeyMaterial) (services : List String)
      (options : Options)
      → Yields
          (HasFinal start)
          (λ _. Deployed)
          (phases library bundle discovery handshake username password key services options)
  unfolding phases
  phases-IsVerified bundle username password key services options =
      Yields-behind _ _ (HasFinal-deploy start library bundle username password key)
        (λ _ _ _ _. verify_and_close-IsVerified key services options)

map_error-ok :
    {A : Type 0} (f : PyError → PyError) (r : Exc A) (a : A) → map_error f r ≡ ok a → r ≡ ok a
map_error-ok f (ok b) a e = e
map_error-ok f (err x) a e = absurd (cc)

guarded-Yields :
    {P : Session → Type 0} (Q : Client → Type 0) (library : Library) (m : Boot HostStatus)
    → Yields P (λ _ s. Q s.final_client) m
    → Yields P
        (λ _ s. Q s.final_client)
        (then_always (translating deployment_error m) (cleanup library))
unfolding then_always translating
guarded-Yields Q library m k = record {
  at = λ s status held e.
      subst Q (sym (cleanup-final library (m s).1))
        (k.at s status held (map_error-ok deployment_error (m s).0 status e));
}

-- What a result of the bootstrap stands for
pub record IsDeployed (library : Library) (discovery : HostDiscovery) (before after : Session)
    (result : BootstrapResult) : Type 0 where
  pub machine_kept : result.machine_id ≡ discovery.machine_id
  pub fingerprint_kept : result.fingerprint ≡ discovery.fingerprint
  pub verified :
      IsVerified library result.machine_id result.fingerprint
        (fresh_client before.final_client)
        after.final_client

-- A bootstrap returns only if its new client has seen the host key that was discovered and no other,
-- and has sent the status command, and the outcome at the place of that command among the client's
-- outcomes is a status of the machine that was discovered.
pub async_bootstrap-IsDeployed :
    (library : Library) (bundle : Bundle) (discovery : HostDiscovery) (handshake : Handshake)
    (username password : String) (options : Options) (s : Session) (result : BootstrapResult)
    → (async_bootstrap library bundle discovery handshake username password options s).0 ≡ ok result
    → IsDeployed library discovery s
        (async_bootstrap library bundle discovery handshake username password options s).1
        result
unfolding async_bootstrap
async_bootstrap-IsDeployed library bundle discovery handshake username password options s result e =
    (Yields-behind {P = HasFinal s.final_client}
        {Q = λ r after. IsDeployed library discovery s after r} _ _ (Preserves-lift _)
        (λ _ _ _ _. Yields-behind _ _ (Preserves-unless _ _) (λ _ _ _ _.
          Yields-behind _ _ (Preserves-unless _ _) (λ _ _ _ _.
            Yields-behind _ _ (Preserves-unless _ _) (λ _ _ _ _.
              Yields-behind _ _ (Preserves-lift _) (λ _ services _ _.
                Yields-behind _ _ (HasFinal-prepare s.final_client discovery) (λ _ key _ _.
                  Yields-bind {R = λ _. Deployed library discovery handshake s.final_client} _ _
                    (λ s1 status held returned. (
                      (guarded-Yields
                            (IsVerified library discovery.machine_id discovery.fingerprint
                              (fresh_client s.final_client))
                            library _
                            (phases-IsVerified library discovery handshake s.final_client bundle
                              username password key services options)).at
                          s1 status held returned,
                      Yields-behind _ _ (Preserves-lift _) (λ _ _ _ _.
                          Yields-behind _ _ (Preserves-gets _) (λ _ _ _ _.
                            Yields-pure _ (λ after verified. record {
                              machine_kept = refl;
                              fingerprint_kept = refl;
                              verified = verified;
                            }))),
                    ))))))))).at
      s result refl e
