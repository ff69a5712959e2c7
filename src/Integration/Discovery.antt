-- ===== src/Integration/Discovery.antt =====
-- custom_components/pi_manager/discovery.py: what a host must offer before a bootstrap.
pub mod Texts
pub mod Kept
pub mod Granted
pub mod Found
use ha_pi_manager_integratio.Prelude.{
  split_words, String, ◌==◌, Bool, true, false, ◌||◌, not, Option, none, some, List, [], ◌∷◌,
  Result, ok, err, any, append, splitlines, strip, if◌then◌else◌,
}
use ha_pi_manager_integratio.Prelude.Exec.{◌>>=◌, ◌>>◌, pure, raise, lift, gets, unless}
use ha_pi_manager_integratio.Errors.{Exc, PyError, discovery, index_error}
use ha_pi_manager_integratio.Models.{CommandResult, HostDiscovery, result_ok}
use ha_pi_manager_integratio.Agent.Services.{contains}
use ha_pi_manager_integratio.Contract.Status.{is_machine_id}
use ha_pi_manager_integratio.Integration.Ssh.Client.{
  Ssh, Utf8, is_blank, run, run_sudo, run_sudo_nopass,
}
use ha_pi_manager_integratio.Integration.Bootstrap.Session.{strip_quotes}
use ha_pi_manager_integratio.Integration.Bootstrap.Install.{remote_agent_path, remote_ctl_path}
use Texts.{Info, get_info, parse_os_release, lower_is, parse_agent_version, sorted_keys}

abbrev unavailable : String → PyError
unavailable category = discovery category ""

abbrev pub architectures : List String
architectures =
    "aarch64" ∷ "arm64" ∷ "armv6l" ∷ "armv7l" ∷ "armhf" ∷ "x86_64" ∷ "amd64" ∷ "i386" ∷ []

-- One of `debian`, `raspbian` and `ubuntu`, in any case
abbrev is_supported_name : String → Bool
is_supported_name name =
    lower_is "debian" name || lower_is "raspbian" name || lower_is "ubuntu" name

unfoldable pub os_supported : Info → Bool
unfolding lower_is split_words
os_supported info =
    is_supported_name (get_info "ID" "" info)
    || any is_supported_name (split_words (get_info "ID_LIKE" "" info))

-- `text.splitlines()[0].strip()`
abbrev first_of_lines : List String → Exc String
first_of_lines [] = err index_error
first_of_lines (line ∷ _) = ok (strip line)

unfoldable pub first_line : String → Exc String
unfolding splitlines strip
first_line text = first_of_lines (splitlines text)

abbrev pub text_of : Option String → String
text_of none = ""
text_of (some text) = text

abbrev probe_path : String → String
probe_path token = append "/usr/local/.pi-manager-write-probe-" token

module _ (utf8 : Utf8) where
  -- `_required_output`
  unfoldable pub required_output : List String → String → Ssh String
  unfolding run strip
  required_output args category = do
    result ← run utf8 args none
    unless (result_ok result) (unavailable category)
    unless (not (strip result.stdout == "")) (unavailable category)
    pure result.stdout

  -- `run_sudo` with the bootstrap password if there is one, and without a password otherwise
  unfoldable pub privileged : Option String → List String → Ssh CommandResult
  unfolding run_sudo run_sudo_nopass
  privileged none args = run_sudo_nopass utf8 args
  privileged (some password) args = run_sudo utf8 args password

  unfoldable pub installed_version : Bool → Ssh (Option String)
  unfolding run parse_agent_version
  installed_version false = pure none
  installed_version true = do
    result ← run utf8 ("/usr/bin/grep" ∷ "-m1" ∷ "^AGENT_VERSION" ∷ remote_agent_path ∷ []) none
    pure (if result_ok result then parse_agent_version result.stdout else none)

  -- Everything up to the machine's identity
  unfoldable pub read_os : Ssh Info
  unfolding run parse_os_release os_supported
  read_os = do
    result ← run utf8 ("/usr/bin/cat" ∷ "/etc/os-release" ∷ []) none
    unless (result_ok result) (unavailable "unsupported_os")
    let info = parse_os_release result.stdout
    unless (os_supported info) (unavailable "unsupported_os")
    pure info

  unfoldable pub read_architecture : Ssh String
  unfolding required_output
  read_architecture = do
    output ← required_output ("/usr/bin/uname" ∷ "-m" ∷ []) "unsupported_architecture"
    let architecture = strip output
    unless (contains architecture architectures) (unavailable "unsupported_architecture")
    pure architecture

  unfoldable pub read_machine_id : Ssh String
  unfolding required_output
  read_machine_id = do
    output ← required_output ("/usr/bin/cat" ∷ "/etc/machine-id" ∷ []) "machine_id_unavailable"
    let machine_id = strip output
    unless (is_machine_id machine_id) (unavailable "machine_id_unavailable")
    pure machine_id

  -- The write probe: whether it works, and its removal
  unfoldable pub probe : Option String → String → Ssh Bool
  unfolding privileged
  probe password token = do
    writable ← privileged password ("/usr/bin/touch" ∷ probe_path token ∷ [])
    _ ← privileged password ("/bin/rm" ∷ "-f" ∷ probe_path token ∷ [])
    pure (result_ok writable)

  -- `discover_host`; `token` is what `secrets.token_hex` gives.
  unfoldable pub discover_host : Option String → String → Ssh HostDiscovery
  unfolding read_os read_architecture read_machine_id privileged installed_version probe first_line
      strip_quotes
  discover_host bootstrap_password token = do
    noted ← gets (λ c. c.fingerprint)
    unless (not (is_blank noted)) (unavailable "fingerprint_unavailable")
    info ← read_os
    architecture ← read_architecture
    python_version ← required_output ("/usr/bin/python3" ∷ "--version" ∷ []) "missing_python"
    systemd_version ← required_output ("/usr/bin/systemctl" ∷ "--version" ∷ []) "missing_systemd"
    apt_version ← required_output ("/usr/bin/apt-get" ∷ "--version" ∷ []) "missing_apt"
    hostname ← required_output ("/bin/hostname" ∷ []) "hostname_unavailable"
    machine_id ← read_machine_id
    sudo ← privileged bootstrap_password ("/usr/bin/true" ∷ [])
    unless (result_ok sudo) (unavailable "sudo_unavailable")
    helper ← run utf8 ("/usr/bin/test" ∷ "-x" ∷ remote_ctl_path ∷ []) none
    helper_version ← installed_version (result_ok helper)
    target_writable ← probe bootstrap_password token
    systemd_line ← lift (first_line systemd_version)
    apt_line ← lift (first_line apt_version)
    fingerprint ← gets (λ c. c.fingerprint)
    pure (record {
      machine_id = machine_id;
      hostname = strip hostname;
      os_name = strip_quotes (get_info "PRETTY_NAME" (get_info "NAME" "Unknown" info) info);
      os_version = strip_quotes (get_info "VERSION_ID" "unknown" info);
      architecture = strip architecture;
      python_version = strip (strip python_version);
      systemd_version = systemd_line;
      apt_version = apt_line;
      sudo_available = result_ok sudo;
      helper_installed = result_ok helper;
      helper_version = helper_version;
      target_writable = target_writable;
      fingerprint = text_of fingerprint;
      raw_capabilities = sorted_keys info;
    })
