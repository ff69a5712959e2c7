-- ===== src/Agent/Frame/Handlers.antt =====
-- The package jobs keep an invariant of the host.
use ha_pi_manager_integratio.Prelude.{
  String, ◌≡◌, ap, Option-cases, true, false, Option, none, some, List, inl, inr,
}
use ha_pi_manager_integratio.Json.{Value, str, dict, Fields}
use ha_pi_manager_integratio.Agent.Constants.{lookup, has_key, package_job_commands}
use ha_pi_manager_integratio.Agent.Names.{matches_job_unit}
use ha_pi_manager_integratio.Agent.World.{World}
use ha_pi_manager_integratio.Agent.Keeps.{Keeps, Keeps-bind, Keeps-bind-unless, Keeps-if}
use ha_pi_manager_integratio.Agent.Commands.{Allowed, refresh, job, worker, show_job}
use ha_pi_manager_integratio.Agent.Frame.Steps.{Steps, frame_steps}
use ha_pi_manager_integratio.Agent.Jobs.State.{refresh_job, running_job, job_state}
use ha_pi_manager_integratio.Agent.Jobs.Start.{
  refresh_package_index, launch, start_package_job, run_package_job, argv_of,
}

-- The worker runs the fixed command of a job of the table.
job_command-Allowed :
    (type : String)
    → has_key type package_job_commands ≡ true
    → Allowed (argv_of (lookup type package_job_commands))
job_command-Allowed type e = elim (Option-cases (lookup type package_job_commands)) [
  | inl missing ↦
      absurd
        (cc (ap (λ (o : Option (List String)). elim o [ none ↦ false | some _ ↦ true ]) missing))
  | inr (argv, found) ↦ rw found (job type argv found)
]

module _ {P : World → Type 0} (steps : Steps P) where
  refresh_job-Keeps :
      (fields : Fields) (seen : List (String × String)) → Keeps P (refresh_job fields seen)
  unfolding refresh_job
  refresh_job-Keeps fields seen = search frame_steps

  running_job-Keeps : (fields : Fields) (unit : Value) → Keeps P (running_job fields unit)
  unfolding running_job
  running_job-Keeps fields (str unit) =
      Keeps-if (matches_job_unit unit) _ _
        (λ e. search (frame_steps, show_job unit e, refresh_job-Keeps)) (λ _. search frame_steps)
  running_job-Keeps fields _ = search frame_steps

  pub job_state-Keeps : (value : Value) → Keeps P (job_state value)
  unfolding job_state
  job_state-Keeps (dict fields) = search (frame_steps, running_job-Keeps)
  job_state-Keeps _ = search frame_steps

  pub refresh_package_index-Keeps : (code : String) → Keeps P (refresh_package_index code)
  unfolding refresh_package_index
  refresh_package_index-Keeps code = search (frame_steps, refresh)

  pub launch-Keeps :
      (type : String) (state : Fields)
      → has_key type package_job_commands ≡ true
      → Keeps P (launch type state)
  unfolding launch
  launch-Keeps type state e = search (frame_steps, worker _ type e) depth 12

  pub start_package_job-Keeps : (type : String) → Keeps P (start_package_job type)
  unfolding start_package_job
  start_package_job-Keeps type =
      Keeps-bind-unless (has_key type package_job_commands) _ _
        λ e. search (frame_steps, job_state-Keeps, launch-Keeps type _ e) depth 12

  pub run_package_job-Keeps : (type : String) → Keeps P (run_package_job type)
  unfolding run_package_job
  run_package_job-Keeps type = Keeps-bind _ _ (search frame_steps) λ root.
      Keeps-bind _ _ (search frame_steps) λ _.
        Keeps-bind-unless (has_key type package_job_commands) _ _ λ e.
          search (frame_steps, refresh_package_index-Keeps, job_command-Allowed type e) depth 12
