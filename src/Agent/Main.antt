-- ===== src/Agent/Main.antt =====
-- `main` after `_parse_args`: one handler for each operation, and what is reported.
use ha_pi_manager_integratio.Prelude.{
  ℤ, pos, String, Option, none, some, List, [], ◌∷◌, Result, ok, err, ltb, if◌then◌else◌,
}
use mathlib.Core.Option
use ha_pi_manager_integratio.Prelude.Exec.{◌>>=◌, pure}
use ha_pi_manager_integratio.Json.{Value, bool, int, str, dict, Fields, end, field}
use ha_pi_manager_integratio.Agent.World.{
  Agent, Failure, agent_error, os_error, value_error, type_error, succeeded, run,
}
use ha_pi_manager_integratio.Agent.Constants.{agent_schema_version, max_json_bytes}
use ha_pi_manager_integratio.Agent.Library.{Library}
use ha_pi_manager_integratio.Agent.Jobs.Start.{start_update, start_package_job, run_package_job}
use ha_pi_manager_integratio.Agent.Services.{handle_status, handle_validate, handle_restart}
use ha_pi_manager_integratio.Agent.Configure.{configure_services}
use ha_pi_manager_integratio.Agent.Trust.{configure_trust}
use ha_pi_manager_integratio.Agent.Upgrade.{Request, upgrade_helper}
use ha_pi_manager_integratio.Agent.Status.{Sensors, status}
use ha_pi_manager_integratio.Agent.Maintenance.Query.{
  check_updates, preview_package, audit_packages, show_package_holds, failed_services,
}

-- `args.operation` with its arguments; the texts of `preview`, `package_job` and `job_worker` are
-- the operation's or the job's name, and `status` comes with what is measured during it.
pub data Operation : Type 0 where
  check_updates_op update_op audit_packages_op show_package_holds_op failed_services_op : Operation
  reboot_op shutdown_op : Operation
  preview_op package_job_op job_worker_op : String → Operation
  service_status_op service_validate_op service_restart_op : String → Operation
  configure_services_op configure_trust_op : String → Operation
  upgrade_helper_op : Request → Operation
  status_op : Sensors → Operation

abbrev fields_of : Value → Fields
fields_of (dict fields) = fields
fields_of _ = end

-- What a branch of `main` hands to `_emit`, if anything, and its return code
pub record Reply : Type 0 where
  pub payload : Option Fields
  pub returncode : ℤ

abbrev reply : Value → Reply
reply value = record { payload = some (fields_of value); returncode = pos 0 }

abbrev reply_as : String → Value → Reply
reply_as key value = record { payload = some (field key value end); returncode = pos 0 }

abbrev pub power : String → List String
power verb = "/bin/systemctl" ∷ verb ∷ []

-- The `reboot` and `shutdown` branches
unfoldable pub power_action : String → String → Agent Reply
power_action verb action = do
  result ← run (power verb)
  pure (record {
    payload = some (field "accepted" (bool (succeeded result)) (field "action" (str action) end));
    returncode = result.returncode;
  })

unfoldable pub handle : Library → Operation → Agent Reply
unfolding power_action
handle lib check_updates_op = do value ← check_updates; pure (reply_as "updates" value)
handle lib update_op = do value ← start_update; pure (reply_as "job" value)
handle lib audit_packages_op = do value ← audit_packages; pure (reply_as "audit" value)
handle lib show_package_holds_op = do value ← show_package_holds; pure (reply_as "holds" value)
handle lib failed_services_op = do value ← failed_services; pure (reply_as "failed_services" value)
handle lib reboot_op = power_action "reboot" "reboot"
handle lib shutdown_op = power_action "poweroff" "shutdown"
handle lib (preview_op operation) = do
  value ← preview_package operation
  pure (reply_as "preview" value)
handle lib (package_job_op job_type) = do
  value ← start_package_job job_type
  pure (reply_as "job" value)
handle lib (job_worker_op job_type) = do
  _ ← run_package_job job_type
  pure (record { payload = none; returncode = pos 0 })
handle lib (service_status_op name) = do value ← handle_status name; pure (reply_as "service" value)
handle lib (service_validate_op name) = do value ← handle_validate name; pure (reply value)
handle lib (service_restart_op name) = do value ← handle_restart name; pure (reply value)
handle lib (configure_services_op encoded) = do
  value ← configure_services lib encoded
  pure (reply value)
handle lib (configure_trust_op secret) = do value ← configure_trust lib secret; pure (reply value)
handle lib (status_op sensors) = do value ← status lib sensors; pure (reply value)
handle lib (upgrade_helper_op request) = do value ← upgrade_helper lib request; pure (reply value)

abbrev error_fields : String → String → Fields
error_fields text message =
    field "error" (dict (field "code" (str text) (field "message" (str message) end))) end

abbrev error_reply : String → Reply
error_reply text = record { payload = some (error_fields text text); returncode = pos 1 }

-- The `except` clauses of `main`; a `TypeError` is in none of them.
unfoldable pub report : Result Failure Reply → Result Failure Reply
report (ok r) = ok r
report (err (agent_error text)) = ok (error_reply text)
report (err os_error) = ok (error_reply "operation_failed")
report (err value_error) = ok (error_reply "operation_failed")
report (err type_error) = err type_error

-- `_emit`: the schema version in front, and a short error in place of an oversized response, under
-- the same return code.
unfoldable pub emit : Library → Fields → Fields
emit lib payload =
    let response : Fields = field "schema_version" (int (pos agent_schema_version)) payload in
    if ltb max_json_bytes (lib.dumps_size response)
    then field "schema_version" (int (pos agent_schema_version))
        (error_fields "response_too_large" "Response exceeded the bounded output limit")
    else response

abbrev emitted : Library → Result Failure Reply → Result Failure Reply
emitted lib (ok r) = ok (record r { payload = Option.map (emit lib) r.payload })
emitted lib (err e) = err e

unfoldable pub main : Library → Operation → Agent Reply
unfolding report emit
main lib operation w = let (r, w') = handle lib operation w in (emitted lib (report r), w')
