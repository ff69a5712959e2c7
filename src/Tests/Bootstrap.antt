-- ===== src/Tests/Bootstrap.antt =====
-- The bootstrap at concrete inputs.
use ha_pi_manager_integratio.Prelude.{String, pos, refl, true, false, none, some, [], ◌∷◌}
use ha_pi_manager_integratio.Prelude.Exec.{◌>>=◌}
use ha_pi_manager_integratio.Json.{decoded, dict}
use ha_pi_manager_integratio.Models.{HostDiscovery, BootstrapResult}
use ha_pi_manager_integratio.Integration.Ssh.Client.{presents, granted, finished, carried}
use ha_pi_manager_integratio.Integration.Bootstrap.Session.{Library, Bundle, Options, Session}
use ha_pi_manager_integratio.Integration.Bootstrap.Whole.{async_bootstrap}
use ha_pi_manager_integratio.Integration.Bootstrap.Policy.{
  PolicyIsGuarded, install_sudoers-PolicyIsGuarded,
}
use ha_pi_manager_integratio.Integration.Bootstrap.Removed.{
  PathsAreRemoved, async_bootstrap-PathsAreRemoved,
}
use ha_pi_manager_integratio.Integration.Bootstrap.Verified.{IsDeployed, async_bootstrap-IsDeployed}
use ha_pi_manager_integratio.Tests.Samples.{sample_python}
use ha_pi_manager_integratio.Tests.Ssh.{sample_utf8, open_client, closed_client}
use ha_pi_manager_integratio.Tests.Keys.{empty_store}
use ha_pi_manager_integratio.Tests.Document.{sample_status_payload}
use ha_pi_manager_integratio.Prelude.Results
use ha_pi_manager_integratio.Prelude.{strip, is_space, splitlines, is_line_end, split_commas}
use ha_pi_manager_integratio.Agent.Names.{matches_username}
use ha_pi_manager_integratio.Integration.Validation.{validate_username, validate_service_list}
use ha_pi_manager_integratio.Json.{is_nat}
use ha_pi_manager_integratio.Json.Floats.{of_int, is_finite, is_negative, trunc}
use ha_pi_manager_integratio.Contract.Fields.{
  mapping, string, optional_string, number, checked, boolean, parse_each,
}
use ha_pi_manager_integratio.Contract.Parts.{parse_update_info}
use ha_pi_manager_integratio.Contract.Maintenance.{bounded_list, unless_null, parse_maintenance}
use ha_pi_manager_integratio.Contract.Status.{
  parse_status, parse_machine, is_machine_id, parse_cpu, parse_memory, parse_json_response,
}
use ha_pi_manager_integratio.Integration.Bootstrap.Install.{
  helper_upload, policy_upload, policy_staging,
}
use ha_pi_manager_integratio.Integration.Sudoers.{render_sudoers}

abbrev pub sample_policy : String
sample_policy =
    "# Pi Manager sudo policy version: 0.2.5\npi ALL=(root) NOPASSWD: /usr/local/sbin/pi-managerctl status --json, /usr/local/sbin/pi-managerctl check-updates --json, /usr/local/sbin/pi-managerctl update --json, /usr/local/sbin/pi-managerctl upgrade --json, /usr/local/sbin/pi-managerctl dist-upgrade --json, /usr/local/sbin/pi-managerctl preview-upgrade --json, /usr/local/sbin/pi-managerctl preview-dist-upgrade --json, /usr/local/sbin/pi-managerctl preview-autoremove --json, /usr/local/sbin/pi-managerctl audit-packages --json, /usr/local/sbin/pi-managerctl show-package-holds --json, /usr/local/sbin/pi-managerctl failed-services --json, /usr/local/sbin/pi-managerctl configure-packages --json, /usr/local/sbin/pi-managerctl repair-packages --json, /usr/local/sbin/pi-managerctl autoremove --json, /usr/local/sbin/pi-managerctl autoclean --json, /usr/local/sbin/pi-managerctl clean-cache --json, /usr/local/sbin/pi-managerctl reboot --json, /usr/local/sbin/pi-managerctl shutdown --json, /usr/local/sbin/pi-managerctl service-status *, /usr/local/sbin/pi-managerctl service-restart *, /usr/local/sbin/pi-managerctl service-validate *, /usr/local/sbin/pi-managerctl configure-services --json --services-json *, /usr/local/sbin/pi-managerctl configure-trust --json --secret *, /usr/local/sbin/pi-managerctl upgrade-helper --json --version * --agent * --ctl * --signature *, /usr/local/sbin/pi-managerctl upgrade-helper --json --version * --agent * --ctl * --signature * --sudoers *\n"

abbrev sample_library : Library
sample_library = record {
  python = record sample_python { loads = λ text. decoded (dict sample_status_payload) };
  utf8 = sample_utf8;
  dumps = λ value. "{}";
  base64 = λ text. "AAAA";
  fill = λ template username version. template;
}

abbrev sample_session : Session
sample_session = record {
  client = record open_client {
    outcomes =
        finished (pos 0) "" ""
        ∷ finished (pos 0) "" ""
        ∷ finished (pos 0) "" ""
        ∷ finished (pos 0) "" ""
        ∷ finished (pos 0) "" ""
        ∷ finished (pos 0) "" ""
        ∷ [];
    transfers = carried ∷ carried ∷ carried ∷ [];
  };
  final_client = record closed_client {
    outcomes = finished (pos 0) "" "" ∷ finished (pos 0) "" "" ∷ finished (pos 0) "{}" "" ∷ [];
  };
  keys = empty_store;
  tokens = "01" ∷ "02" ∷ "03" ∷ "04" ∷ [];
  temporary_paths = [];
  changed_files = [];
}

install_sudoers-PolicyIsGuarded_example :
    PolicyIsGuarded sample_library "secret" sample_policy sample_session
install_sudoers-PolicyIsGuarded_example =
    install_sudoers-PolicyIsGuarded sample_library "secret" sample_policy (carried ∷ carried ∷ [])
      sample_session refl refl refl

abbrev sample_discovery : HostDiscovery
sample_discovery = record {
  machine_id = "0123456789abcdef";
  hostname = "pi";
  os_name = "Debian";
  os_version = "12";
  architecture = "aarch64";
  python_version = "Python 3.11";
  systemd_version = "systemd 252";
  apt_version = "apt 2.6";
  sudo_available = true;
  helper_installed = false;
  helper_version = none;
  target_writable = true;
  fingerprint = "SHA256:key";
  raw_capabilities = [];
}

abbrev no_options : Options
no_options = record {
  monitored_services = [];
  filesystem_include = [];
  filesystem_exclude = [];
  network_include = [];
  network_exclude = [];
}

abbrev sample_bundle : Bundle
sample_bundle = record {
  agent = some "AGENT_VERSION = \"0.2.5\"\n";
  ctl = some "#!/bin/sh\n";
  sudoers = some sample_policy;
}

async_bootstrap-PathsAreRemoved_example :
    PathsAreRemoved
      (async_bootstrap sample_library sample_bundle sample_discovery
        (presents "SHA256:key" granted)
        "pi"
        "secret"
        no_options
        sample_session).1
async_bootstrap-PathsAreRemoved_example =
    async_bootstrap-PathsAreRemoved sample_library sample_bundle sample_discovery
      (presents "SHA256:key" granted) "pi" "secret" no_options sample_session
      (record { connected = refl; no_uploads = refl; no_paths = refl })

abbrev sample_result : BootstrapResult
sample_result = record {
  machine_id = "0123456789abcdef";
  key_id = "0123456789abcdef";
  fingerprint = "SHA256:key";
  helper_version = "0.2.5";
  changed_files =
      "~/.ssh/authorized_keys" ∷ "/usr/local/lib/pi-manager/pi_manager_agent.py"
      ∷ "/usr/local/sbin/pi-managerctl" ∷ "/etc/sudoers.d/pi-manager" ∷ [];
}

async_bootstrap-IsDeployed_example :
    IsDeployed sample_library sample_discovery sample_session
      (async_bootstrap sample_library sample_bundle sample_discovery
        (presents "SHA256:key" granted)
        "pi"
        "secret"
        no_options
        sample_session).1
      sample_result
unfolding async_bootstrap ◌>>=◌ validate_username matches_username strip is_space
    validate_service_list is_machine_id helper_upload policy_upload policy_staging
    parse_json_response render_sudoers Results.◌>>=◌ splitlines is_line_end split_commas
    parse_status is_nat mapping parse_machine string number of_int checked is_finite is_negative
    parse_cpu parse_memory bounded_list parse_each unless_null parse_maintenance optional_string
    boolean parse_update_info trunc
async_bootstrap-IsDeployed_example =
    async_bootstrap-IsDeployed sample_library sample_bundle sample_discovery
      (presents "SHA256:key" granted) "pi" "secret" no_options sample_session sample_result refl
