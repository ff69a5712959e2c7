-- ===== src/Integration/Bootstrap/Install.antt =====
-- `_append_authorized_key`, `_install_helper`, `_install_sudoers` and `_configure_remote`.
use ha_pi_manager_integratio.Prelude.{
  String, Option, none, some, List, [], ◌∷◌, ok, err, append, strip,
}
use ha_pi_manager_integratio.Prelude.Exec.{◌>>=◌, ◌>>◌, lift, unless}
use ha_pi_manager_integratio.Errors.{Exc, PyError, bootstrap, value_error, os_error}
use ha_pi_manager_integratio.Models.{CommandResult, KeyMaterial, result_ok}
use ha_pi_manager_integratio.Json.{Value, list, dict, field, end, strings}
use ha_pi_manager_integratio.Integration.Ssh.Client.{run, run_sudo, run_sudo_nopass, upload_text}
use ha_pi_manager_integratio.Integration.Sudoers.{render_sudoers}
use ha_pi_manager_integratio.Integration.Bootstrap.Session.{
  Library, Session, Boot, Options, on_client, on_final, translating, token, add_temporary,
}

abbrev pub remote_agent_path : String
remote_agent_path = "/usr/local/lib/pi-manager/pi_manager_agent.py"

abbrev pub remote_ctl_path : String
remote_ctl_path = "/usr/local/sbin/pi-managerctl"

abbrev pub remote_sudoers_path : String
remote_sudoers_path = "/etc/sudoers.d/pi-manager"

abbrev pub key_script : String
key_script =
    "import base64,os,pathlib,sys\nkey=base64.b64decode(sys.argv[1]).decode('utf-8').strip()\nssh=pathlib.Path.home()/'.ssh'\nssh.mkdir(mode=0o700,exist_ok=True)\nos.chmod(ssh,0o700)\ntarget=ssh/'authorized_keys'\nif target.is_symlink(): raise SystemExit(7)\nold=target.read_text(encoding='utf-8') if target.exists() else ''\nlines=old.splitlines()\nif key not in lines:\n  separator='' if not old or old.endswith('\\n') else '\\n'\n  with target.open('a',encoding='utf-8') as f: f.write(separator+key+'\\n')\nos.chmod(target,0o600)\n"

-- A command whose exit status must be zero
abbrev pub checked : PyError → Boot CommandResult → Boot (Unit {0})
checked e m = do result ← m; unless (result_ok result) e

unfoldable pub helper_upload : String → String
helper_upload name = append "/tmp/.pi-manager-" name

unfoldable pub policy_upload : String → String
policy_upload name = append "/tmp/.pi-manager-sudoers-" name

unfoldable pub policy_staging : String → String
policy_staging name = append "/etc/sudoers.d/.pi-manager.validate-" name

module _ (library : Library) where
  unfoldable pub append_authorized_key : String → Boot (Unit {0})
  unfolding on_client run strip
  append_authorized_key public_key =
      checked (bootstrap "authorized_keys" "The Pi Manager key could not be appended") (
        on_client (
          run library.utf8
            ("/usr/bin/python3" ∷ "-c" ∷ key_script ∷ library.base64 (strip public_key) ∷ []) none))

  -- `oct(mode)[2:]` is given as `mode_text`.
  unfoldable pub install_helper : String → Option String → String → String → Boot (Unit {0})
  unfolding token add_temporary on_client upload_text run_sudo
  install_helper password source destination mode_text = do
    content ← lift (elim source as (λ _. Exc String) [
      | none ↦ err (bootstrap "helper_source" "The bundled helper source is unavailable")
      | some content ↦ ok content
    ])
    name ← token
    let temporary = helper_upload name
    add_temporary temporary
    on_client (upload_text temporary content 384)
    checked (bootstrap "helper_install" "The remote helper could not be installed") (
        on_client (
          run_sudo library.utf8
            ("/usr/bin/install" ∷ "-D" ∷ "-o" ∷ "root" ∷ "-g" ∷ "root" ∷ "-m" ∷ mode_text
              ∷ temporary ∷ destination ∷ [])
            password))

  unfoldable pub sudo : String → List String → Boot CommandResult
  unfolding on_client run_sudo
  sudo password args = on_client (run_sudo library.utf8 args password)

  -- The guarded part of `_install_sudoers`
  unfoldable pub activate_policy : String → String → String → Boot (Unit {0})
  unfolding sudo
  activate_policy password temporary validation_path = do
    checked (bootstrap "sudoers_install" "The restricted sudo policy could not be staged") (
        sudo password (
          "/usr/bin/install" ∷ "-D" ∷ "-o" ∷ "root" ∷ "-g" ∷ "root" ∷ "-m" ∷ "0440" ∷ temporary
          ∷ validation_path ∷ []))
    checked (bootstrap "sudoers_validation" "The restricted sudo policy failed visudo validation")
        (sudo password ("/usr/sbin/visudo" ∷ "-cf" ∷ validation_path ∷ []))
    checked (bootstrap "sudoers_activate" "The restricted sudo policy could not be activated")
        (sudo password ("/bin/mv" ∷ validation_path ∷ remote_sudoers_path ∷ []))

  -- The `finally` part: whatever the removal does, the result of the guarded part stays.
  unfoldable pub unstage : String → String → Exc (Unit {0}) × Session → Exc (Unit {0}) × Session
  unfolding sudo
  unstage password validation_path (ok u, s) = (ok u, s)
  unstage password validation_path (err e, s) =
      (err e, (sudo password ("/bin/rm" ∷ "-f" ∷ validation_path ∷ []) s).1)

  unfoldable pub stage_policy : String → String → String → Boot (Unit {0})
  unfolding activate_policy unstage
  stage_policy password temporary validation_path s =
      unstage password validation_path (activate_policy password temporary validation_path s)

  unfoldable pub install_sudoers : String → String → Boot (Unit {0})
  unfolding token add_temporary on_client upload_text stage_policy
  install_sudoers password content = do
    name ← token
    let temporary = policy_upload name
    other ← token
    let validation_path = policy_staging other
    add_temporary temporary
    on_client (upload_text temporary content 384)
    stage_policy password temporary validation_path

  abbrev configuration : List String → Options → Value
  configuration services options = dict (
      field "services" (list (strings services)) (
        field "filesystem_include" (list (strings options.filesystem_include)) (
          field "filesystem_exclude" (list (strings options.filesystem_exclude)) (
            field "network_include" (list (strings options.network_include))
              (field "network_exclude" (list (strings options.network_exclude)) end)))))

  unfoldable pub configure_remote : KeyMaterial → List String → Options → Boot (Unit {0})
  unfolding on_final run_sudo_nopass
  configure_remote key services options = do
    checked
        (bootstrap "remote_trust" "The remote helper upgrade trust record could not be installed")
        (on_final (
          run_sudo_nopass library.utf8 (
            remote_ctl_path ∷ "configure-trust" ∷ "--json" ∷ "--secret" ∷ key.upgrade_secret ∷ [])))
    let encoded = library.base64 (library.dumps (configuration services options))
    checked
        (bootstrap "remote_configuration" "The remote helper configuration could not be applied")
        (on_final (
          run_sudo_nopass library.utf8
            (remote_ctl_path ∷ "configure-services" ∷ "--json" ∷ "--services-json" ∷ encoded ∷ [])))

  abbrev unavailable_policy : PyError → PyError
  unavailable_policy (os_error _) =
      bootstrap "sudoers_source" "The bundled sudoers policy is unavailable"
  unavailable_policy (value_error _) =
      bootstrap "sudoers_source" "The bundled sudoers policy is unavailable"
  unavailable_policy e = e

  -- `_render_sudoers`
  unfoldable pub render_policy : Option String → String → Boot String
  unfolding translating
  render_policy template username =
      translating unavailable_policy (lift (render_sudoers library.fill template username))
