-- ===== src/Agent/Jobs/Start.antt =====
-- `_start_package_job` and `_run_package_job`.
use ha_pi_manager_integratio.Prelude.{
  String, ◌<>◌, ◌==◌, Bool, false, not, Option, none, some, List, [], ◌∷◌, if◌then◌else◌, str_take,
  any,
}
use ha_pi_manager_integratio.Prelude.Exec.{◌>>=◌, ◌>>◌, pure, gets, unless}
use ha_pi_manager_integratio.Json.{Value, null, str, dict, Fields, end, field, get, set}
use ha_pi_manager_integratio.Agent.Constants.{
  package_job_commands, package_job_labels, package_jobs_requiring_refresh, remote_ctl_path, lookup,
  has_key,
}
use ha_pi_manager_integratio.Agent.World.{
  Agent, agent_error, Completed, succeeded, run, read_clock, file_step, load_state, write_state,
}
use ha_pi_manager_integratio.Agent.Jobs.State.{text_or, has_text, job_state, public_job}

-- `_refresh_package_index`
unfoldable pub refresh_package_index : String → Agent Completed
refresh_package_index error_code = do
  result ← run ("/usr/bin/apt-get" ∷ "update" ∷ "-q" ∷ [])
  unless (succeeded result) (agent_error error_code)
  pure result

-- `current and current.get("state") == "running"`
unfoldable pub is_running : Option Fields → Bool
is_running none = false
is_running (some job) = has_text (get "state" job) "running"

abbrev pub systemd_run : String → String → List String
systemd_run unit job_type =
    "/usr/bin/systemd-run"
    ∷ "--quiet"
    ∷ "--no-block"
    ∷ ("--unit=" <> unit)
    ∷ "--property=Type=oneshot"
    ∷ remote_ctl_path
    ∷ "job-worker"
    ∷ job_type
    ∷ []

unfoldable pub new_job : String → String → String → String → Fields
new_job job_type unit id started_at = field "id" (str id) (
    field "type" (str job_type) (
      field "state" (str "running") (
        field "started_at" (str started_at) (
          field "finished_at" null (
            field "exit_code" null (
              field "summary" (str (text_or "" (lookup job_type package_job_labels) <> " started"))
                (field "unit" (str unit) end)))))))

-- The body under the lock, once no job is running.
unfoldable pub launch : String → Fields → Agent Value
unfolding new_job
launch job_type state = do
  identifier ← read_clock
  let unit = "pi-manager-job-" <> identifier
  result ← run (systemd_run unit job_type)
  unless (succeeded result) (agent_error "package_job_start_failed")
  stamp ← read_clock
  started_at ← read_clock
  let job = new_job job_type unit ("pm-" <> stamp <> "-" <> str_take 4 identifier) started_at
  write_state (set "job" (dict job) state)
  pure (public_job (some job))

unfoldable pub start_package_job : String → Agent Value
unfolding launch is_running
start_package_job job_type = do
  unless (has_key job_type package_job_commands) (agent_error "operation_not_allowed")
  file_step
  state ← load_state end
  current ← job_state (get "job" state)
  unless (not (is_running current)) (agent_error "update_already_running")
  launch job_type state

-- `_start_update`
abbrev pub start_update : Agent Value
start_update = start_package_job "upgrade"

abbrev pub argv_of : Option (List String) → List String
argv_of none = []
argv_of (some argv) = argv

-- `_run_package_job`, in the systemd unit of the job
unfoldable pub run_package_job : String → Agent Unit
run_package_job job_type = do
  root ← gets (λ w. w.is_root)
  unless root (agent_error "job_worker_requires_root")
  unless (has_key job_type package_job_commands) (agent_error "operation_not_allowed")
  if any (λ t. t == job_type) package_jobs_requiring_refresh
      then (do refresh_package_index "package_refresh_failed"; pure tt)
      else pure tt
  result ← run (argv_of (lookup job_type package_job_commands))
  unless (succeeded result) (agent_error "package_job_failed")
