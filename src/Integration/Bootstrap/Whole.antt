-- ===== src/Integration/Bootstrap/Whole.antt =====
-- `Bootstrapper.async_bootstrap`, phase after phase.
use ha_pi_manager_integratio.Prelude.{String, ◌==◌, false, not, none, some, List, [], ◌∷◌}
use ha_pi_manager_integratio.Prelude.Exec.{◌>>=◌, ◌>>◌, pure, lift, gets, unless}
use ha_pi_manager_integratio.Errors.{PyError, bootstrap, fingerprint_mismatch}
use ha_pi_manager_integratio.Models.{
  HostStatus, HostDiscovery, BootstrapResult, KeyMaterial, result_ok,
}
use ha_pi_manager_integratio.Contract.Status.{parse_json_response, parse_status}
use ha_pi_manager_integratio.Integration.Validation.{validate_username, validate_service_list}
use ha_pi_manager_integratio.Integration.Ssh.Client.{
  Handshake, run, run_sudo_nopass, connect, close,
}
use ha_pi_manager_integratio.Integration.KeyStore.Operations.{create_for_machine}
use ha_pi_manager_integratio.Integration.Bootstrap.Session.{
  Library, Bundle, Session, Boot, Options, on_final, on_keys, then_always, translating, add_changed,
  new_client, helper_version_of,
}
use ha_pi_manager_integratio.Integration.Bootstrap.Install.{
  remote_agent_path, remote_ctl_path, remote_sudoers_path, append_authorized_key, install_helper,
  install_sudoers, configure_remote, render_policy,
}

-- `except BootstrapError, HostFingerprintMismatch: raise`, and any other exception is a failed deployment.
unfoldable pub deployment_error : PyError → PyError
deployment_error (bootstrap stage text) = bootstrap stage text
deployment_error (fingerprint_mismatch expected observed) = fingerprint_mismatch expected observed
deployment_error e = bootstrap "deployment" "Pi Manager bootstrap did not complete"

-- The new key pair, and a list of paths that starts empty
unfoldable pub prepare : HostDiscovery → Boot KeyMaterial
unfolding on_keys create_for_machine
prepare discovery s =
    on_keys (create_for_machine discovery.machine_id)
      (record s { temporary_paths = []; changed_files = [] })

module _ (library : Library) where
  -- One removal of the cleanup, whose failure is ignored
  abbrev pub remove_path : String → Session → Session
  remove_path path s = record s {
    client = (run library.utf8 ("/bin/rm" ∷ "-f" ∷ path ∷ []) none s.client).1;
  }

  abbrev pub remove_paths : List String → Session → Session
  remove_paths [] s = s
  remove_paths (path ∷ paths) s = remove_paths paths (remove_path path s)

  unfoldable pub cleanup : Session → Session
  unfolding run
  cleanup s = remove_paths s.temporary_paths s

  -- The helper's status over the connection with the new key
  unfoldable pub verified_status : HostDiscovery → Boot HostStatus
  unfolding on_final run_sudo_nopass
  verified_status discovery = do
    result ← on_final (run_sudo_nopass library.utf8 (remote_ctl_path ∷ "status" ∷ "--json" ∷ []))
    unless (result_ok result)
        (bootstrap "final_status" "Key-based helper status verification failed")
    payload ← lift (parse_json_response library.python.loads library.python.utf8_size result.stdout)
    status ← lift (parse_status payload)
    unless (status.machine.machine_id == discovery.machine_id)
        (bootstrap "machine_identity" "The final helper identity changed during bootstrap")
    pure status

  unfoldable pub verify :
      HostDiscovery → Handshake → KeyMaterial → List String → Options → Boot HostStatus
  unfolding on_final connect configure_remote verified_status
  verify discovery handshake key services options = do
    on_final (connect (some discovery.fingerprint) false handshake)
    configure_remote library key services options
    verified_status discovery

  abbrev close_final : Session → Session
  close_final s = record s { final_client = (close s.final_client).1 }

  unfoldable pub verify_and_close :
      HostDiscovery → Handshake → KeyMaterial → List String → Options → Boot HostStatus
  unfolding new_client then_always verify close
  verify_and_close discovery handshake key services options = do
    new_client
    then_always (verify discovery handshake key services options) close_final

  unfoldable pub deploy : Bundle → String → String → KeyMaterial → Boot (Unit {0})
  unfolding append_authorized_key add_changed install_helper render_policy install_sudoers
  deploy bundle username password key = do
    append_authorized_key library key.public_key
    add_changed "~/.ssh/authorized_keys"
    install_helper library password bundle.agent remote_agent_path "644"
    add_changed remote_agent_path
    install_helper library password bundle.ctl remote_ctl_path "755"
    add_changed remote_ctl_path
    sudoers ← render_policy library bundle.sudoers username
    install_sudoers library password sudoers
    add_changed remote_sudoers_path

  unfoldable pub phases :
      Bundle
      → HostDiscovery
      → Handshake
      → String
      → String
      → KeyMaterial
      → List String
      → Options
      → Boot HostStatus
  unfolding deploy verify_and_close
  phases bundle discovery handshake username password key services options = do
    deploy bundle username password key
    verify_and_close discovery handshake key services options

  -- `async_bootstrap`; `handshake` is how the connection with the new key goes.
  unfoldable pub async_bootstrap :
      Bundle → HostDiscovery → Handshake → String → String → Options → Boot BootstrapResult
  unfolding prepare then_always translating deployment_error phases cleanup helper_version_of
  async_bootstrap bundle discovery handshake username password options = do
    _ ← lift (validate_username username)
    unless (not (password == "")) (bootstrap "authentication" "A bootstrap password is required")
    unless discovery.target_writable
        (bootstrap "target_read_only" "The helper destination is not writable")
    unless (not (discovery.fingerprint == ""))
        (bootstrap "fingerprint" "The SSH fingerprint is unavailable")
    services ← lift (validate_service_list options.monitored_services)
    key ← prepare discovery
    _ ←
        then_always
          (translating deployment_error
            (phases bundle discovery handshake username password key services options))
          cleanup
    helper_version ← lift (helper_version_of bundle.agent)
    changed_files ← gets (λ s. s.changed_files)
    pure (record {
      machine_id = discovery.machine_id;
      key_id = key.key_id;
      fingerprint = discovery.fingerprint;
      helper_version = helper_version;
      changed_files = changed_files;
    })
