-- ===== src/Tests/Client.antt =====
-- The theorems on the integration.
use ha_pi_manager_integratio.Prelude.{
  String, ◌≡◌, refl, ◌&&◌, none, [], ◌∷◌, ok, err, leb, nat_eq, length, if◌then◌else◌, strip,
  is_space, has_suffix,
}
use ha_pi_manager_integratio.Prelude.Results.{◌>>=◌}
use ha_pi_manager_integratio.Integration.Runtime.State.{truthy}
use ha_pi_manager_integratio.Errors.{service_name}
use ha_pi_manager_integratio.Agent.Constants.{max_sudoers_bytes}
use ha_pi_manager_integratio.Agent.Names.{service_name_valid, is_version, matches_service}
use ha_pi_manager_integratio.Agent.Sudoers.{policy_valid, comments_of, count_text}
use ha_pi_manager_integratio.Integration.Validation.{validate_service_name, validate_service_list}
use ha_pi_manager_integratio.Integration.Validation.Laws.{
  ServicesAreValid, validate_service_name-service_name_valid,
  validate_service_list-ServicesAreValid,
}
use ha_pi_manager_integratio.Integration.Sudoers.{validate_policy}
use ha_pi_manager_integratio.Integration.Sudoers.Agreement.{is_accepted, policy_valid-is_accepted}
use ha_pi_manager_integratio.Integration.Actions.{perform, reboot}
use ha_pi_manager_integratio.Integration.Actions.Guard.{Restrained, perform-Restrained}
use ha_pi_manager_integratio.Tests.Samples.{sample_library, sample_python, sample_runtime}

validate_service_name-service_name_valid_example : validate_service_name "-H.service" ≡ (
    if service_name_valid "-H.service"
    then ok "-H.service"
    else err (service_name "service_invalid"))
validate_service_name-service_name_valid_example =
    validate_service_name-service_name_valid "-H.service"

validate_service_list-ServicesAreValid_example :
    ServicesAreValid ("ssh.service" ∷ "cron.service" ∷ [])
unfolding validate_service_list ◌>>=◌ validate_service_name strip is_space matches_service
    has_suffix
validate_service_list-ServicesAreValid_example =
    validate_service_list-ServicesAreValid ("ssh.service" ∷ "cron.service" ∷ "ssh.service" ∷ [])
      ("ssh.service" ∷ "cron.service" ∷ []) refl

abbrev short_policy : String
short_policy =
    "# Pi Manager sudo policy version: 0.2.5\npi ALL=(root) NOPASSWD: /usr/local/sbin/pi-managerctl status --json\n"

policy_valid-is_accepted_example : policy_valid sample_library short_policy "0.2.5" ≡ (
    leb (length (sample_library.encode short_policy)) max_sudoers_bytes
    && is_version "0.2.5"
    && nat_eq (count_text "# Pi Manager sudo policy version: 0.2.5" (comments_of short_policy)) 1
    && is_accepted (validate_policy short_policy none "0.2.5"))
policy_valid-is_accepted_example = policy_valid-is_accepted sample_library short_policy "0.2.5"

perform-Restrained_example : Restrained [] (perform sample_python reboot sample_runtime).1
unfolding truthy
perform-Restrained_example = perform-Restrained sample_python reboot sample_runtime refl
