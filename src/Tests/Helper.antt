-- ===== src/Tests/Helper.antt =====
-- The theorems on the helper, on the sample host.
use ha_pi_manager_integratio.Prelude.{
  pos, ◌≡◌, refl, none, some, [], ◌∷◌, All, err, ◌⊎◌, splitlines, is_line_end, partition, decimal,
  is_digit, has_suffix,
}
use ha_pi_manager_integratio.Prelude.Exec.{◌>>=◌}
use ha_pi_manager_integratio.Agent.Names.{matches_job_unit, service_name_valid, matches_service}
use ha_pi_manager_integratio.Prelude.Results
use ha_pi_manager_integratio.Agent.Config.{
  decode_configuration, normalized_services, bounded_services, service_names, updated_config,
  apply_filters, dedupe, filter_names, normalized_filter,
}
use ha_pi_manager_integratio.Agent.Services.{read_config, iterate, valid_services}
use ha_pi_manager_integratio.Json.{set, Value, int, list, dict, nil, Fields, end, field, strings}
use ha_pi_manager_integratio.Agent.Commands.{Allowed}
use ha_pi_manager_integratio.Agent.World.{
  agent_error, load_config, write_config, store_config, file_step, load_state, read_file, read_json,
  read_clock, run, write_state,
}
use ha_pi_manager_integratio.Agent.Upgrade.{Request}
use ha_pi_manager_integratio.Agent.Main.{
  main, upgrade_helper_op, service_restart_op, configure_trust_op, reboot_op,
}
use ha_pi_manager_integratio.Agent.Configure.{configure_services}
use ha_pi_manager_integratio.Agent.Configured.{Configures, configure_services-Configures}
use ha_pi_manager_integratio.Agent.Jobs.State.{
  job_state, public_job, show_unit, properties, finished_job, exit_code_of,
}
use ha_pi_manager_integratio.Agent.Jobs.Start.{start_package_job, new_job}
use ha_pi_manager_integratio.Agent.Jobs.Started.{
  Started, start_package_job-Started, start_package_job-running,
}
use ha_pi_manager_integratio.Agent.Jobs.Machine.{Refresh, job_state-Refresh}
use ha_pi_manager_integratio.Agent.Safety.Commands.{main-OnlyAllowed}
use ha_pi_manager_integratio.Agent.Safety.Trust.{secret_in, run_all, secret_permanent}
use ha_pi_manager_integratio.Agent.Safety.Files.{SameFiles, Signed, files_change-Signed}
use ha_pi_manager_integratio.Tests.Samples.{
  sample_library, sample_secret, sample_encode, sample_job, sample_state, sample_unit,
  active_output, dead_output, host, idle_host,
}

abbrev forged : Request
forged = record { version = "0.2.5"; agent = "b"; ctl = "b"; signature = "no"; sudoers = none }

files_change-Signed_example :
    SameFiles (host "") (main sample_library (upgrade_helper_op forged) (host "")).1
    ⊎ ((request : Request) × (upgrade_helper_op forged ≡ upgrade_helper_op request)
        × Signed sample_library (host "").trust request)
files_change-Signed_example =
    files_change-Signed sample_library (upgrade_helper_op forged) (host "")

main-OnlyAllowed_example :
    All Allowed (main sample_library (service_restart_op "ssh.service") (host "")).1.commands
main-OnlyAllowed_example =
    main-OnlyAllowed sample_library (service_restart_op "ssh.service") (host "") refl

secret_permanent_example :
    secret_in (run_all sample_library (configure_trust_op "b" ∷ reboot_op ∷ []) (host "")).trust
    ≡ some (sample_encode sample_secret)
secret_permanent_example =
    secret_permanent sample_library (configure_trust_op "b" ∷ reboot_op ∷ []) (host "")
      (sample_encode sample_secret) refl refl

abbrev started_job : Fields
unfolding new_job
started_job = new_job "upgrade" "pi-manager-job-0123456789abcdef" "pm-20260101-0123" "12:01"

start_package_job-Started_example :
    Started "upgrade" (public_job (some started_job)) (start_package_job "upgrade" idle_host).1
unfolding start_package_job ◌>>=◌ file_step load_state read_file read_json job_state read_clock run
    write_state
start_package_job-Started_example =
    start_package_job-Started "upgrade" idle_host (public_job (some started_job)) refl

start_package_job-running_example : start_package_job "upgrade" (host active_output) ≡ (
  err (agent_error "update_already_running"),
  record (host active_output) { commands = show_unit sample_unit ∷ []; outcomes = [] },
)
unfolding matches_job_unit properties splitlines is_line_end partition
start_package_job-running_example =
    start_package_job-running "upgrade" sample_unit active_output "" (pos 0) [] sample_state
      sample_job (host active_output) refl refl refl refl refl refl refl refl refl refl

job_state-Refresh_example :
    Refresh sample_job (some (finished_job sample_job (int (pos 0)) "12:01"))
unfolding job_state ◌>>=◌ run properties splitlines is_line_end partition read_clock exit_code_of
    decimal is_digit matches_job_unit
job_state-Refresh_example =
    job_state-Refresh sample_job (host dead_output)
      (some (finished_job sample_job (int (pos 0)) "12:01")) refl

abbrev configured_answer : Value
configured_answer = dict (
    field "configured_services" (list (strings ("ssh.service" ∷ "cron.service" ∷ []))) (
      field "filesystem_include" (list nil) (
        field "filesystem_exclude" (list nil)
          (field "network_include" (list nil) (field "network_exclude" (list nil) end)))))

configure_services-Configures_example :
    Configures configured_answer (configure_services sample_library "b" (host "")).1
unfolding configure_services ◌>>=◌ decode_configuration normalized_services bounded_services
    Results.◌>>=◌ service_names service_name_valid matches_service has_suffix read_config
    load_config read_file read_json iterate updated_config apply_filters set dedupe valid_services
    filter_names normalized_filter write_config file_step store_config
configure_services-Configures_example =
    configure_services-Configures sample_library "b" (host "") configured_answer refl
