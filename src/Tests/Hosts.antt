-- ===== src/Tests/Hosts.antt =====
-- Discovery and a refresh at concrete inputs.
use ha_pi_manager_integratio.Prelude.{
  pos, refl, true, none, some, [], ◌∷◌, strip, is_space, splitlines, is_line_end, partition,
  is_decimal,
}
use ha_pi_manager_integratio.Prelude.Exec.{◌>>=◌}
use ha_pi_manager_integratio.Models.{HostDiscovery}
use ha_pi_manager_integratio.Contract.Status.{is_machine_id}
use ha_pi_manager_integratio.Integration.Ssh.Client.{Client, finished, bounded}
use ha_pi_manager_integratio.Integration.Discovery.{discover_host}
use ha_pi_manager_integratio.Integration.Discovery.Found.{IsDiscovered, discover_host-IsDiscovered}
use ha_pi_manager_integratio.Integration.Coordinator.{Coordinator, async_update_data}
use ha_pi_manager_integratio.Integration.Coordinator.Reported.{
  IsReported, async_update_data-IsReported,
}
use ha_pi_manager_integratio.Tests.Upgrades.{sample_codec, sample_material}
use ha_pi_manager_integratio.Tests.Samples.{sample_python, sample_runtime}
use ha_pi_manager_integratio.Tests.Ssh.{sample_utf8, open_client}

abbrev reachable_host : Client
reachable_host = record open_client {
  outcomes =
      finished (pos 0)
        "ID=raspbian\nID_LIKE=Debian\nPRETTY_NAME=\"Raspbian 12\"\nVERSION_ID=\"12\"\n" ""
      ∷ finished (pos 0) "aarch64\n" ""
      ∷ finished (pos 0) "Python 3.11.2\n" ""
      ∷ finished (pos 0) "systemd 252\n+PAM\n" ""
      ∷ finished (pos 0) "apt 2.6.1 (arm64)\n" ""
      ∷ finished (pos 0) "pi\n" ""
      ∷ finished (pos 0) "0123456789abcdef\n" ""
      ∷ finished (pos 0) "" ""
      ∷ finished (pos 0) "" ""
      ∷ finished (pos 0) "AGENT_VERSION = \"0.2.5\"\n" ""
      ∷ finished (pos 0) "" ""
      ∷ finished (pos 0) "" ""
      ∷ [];
}

abbrev found_host : HostDiscovery
found_host = record {
  machine_id = "0123456789abcdef";
  hostname = "pi";
  os_name = "Raspbian 12";
  os_version = "12";
  architecture = "aarch64";
  python_version = "Python 3.11.2";
  systemd_version = "systemd 252";
  apt_version = "apt 2.6.1 (arm64)";
  sudo_available = true;
  helper_installed = true;
  helper_version = some "0.2.5";
  target_writable = true;
  fingerprint = "SHA256:key";
  raw_capabilities = "ID" ∷ "ID_LIKE" ∷ "PRETTY_NAME" ∷ "VERSION_ID" ∷ [];
}

discover_host-IsDiscovered_example :
    IsDiscovered sample_utf8
      (some "secret")
      reachable_host
      (discover_host sample_utf8 (some "secret") "0a" reachable_host).1
      found_host
unfolding discover_host ◌>>=◌ bounded strip is_space splitlines is_line_end partition is_decimal
    is_machine_id
discover_host-IsDiscovered_example =
    discover_host-IsDiscovered sample_utf8 (some "secret") "0a" reachable_host found_host refl

abbrev sample_coordinator : Coordinator
sample_coordinator = record { runtime = sample_runtime; last_error_category = none; issues = [] }

async_update_data-IsReported_example :
    IsReported
      (async_update_data sample_python sample_codec sample_material sample_coordinator).0
      (async_update_data sample_python sample_codec sample_material sample_coordinator).1
async_update_data-IsReported_example =
    async_update_data-IsReported sample_python sample_codec sample_material sample_coordinator
