-- ===== src/Agent/Jobs/Started.antt =====
-- What a started package job leaves behind, and that a running one keeps a second from starting.
use ha_pi_manager_integratio.Prelude.{
  String, ◌≡◌, refl, true, false, some, List, [], ◌∷◌, ◌++◌, ok, err, arith, ℤ,
}
use ha_pi_manager_integratio.Prelude.Exec.{pure, ◌>>=◌}
use ha_pi_manager_integratio.Json.{Value, str, dict, Fields, get, set}
use ha_pi_manager_integratio.Json.Laws.{get-set_self}
use ha_pi_manager_integratio.Agent.Constants.{package_job_commands, has_key}
use ha_pi_manager_integratio.Agent.Names.{matches_job_unit}
use ha_pi_manager_integratio.Agent.World.{
  World, json, agent_error, Outcome, completed, first_event, tail, run, file_step, load_state,
  read_file, read_json, store_state, write_state,
}
use ha_pi_manager_integratio.Agent.Constants.{lookup}
use ha_pi_manager_integratio.Agent.Post.{Post, Post-bind}
use ha_pi_manager_integratio.Agent.Jobs.State.{
  job_state, running_job, refresh_job, public_job, properties, show_unit, is_one_of,
}
use ha_pi_manager_integratio.Agent.Jobs.Start.{start_package_job, launch, new_job}

-- The state file holds a running job of the type, which is the one that is shown.
pub record Started (job_type : String) (shown : Value) (w : World) : Type 0 where
  pub state : Fields
  pub job : Fields
  pub stored : w.state ≡ json (dict state)
  pub current : get "job" state ≡ dict job
  pub running : get "state" job ≡ str "running"
  pub type : get "type" job ≡ str job_type
  pub shows : shown ≡ public_job (some job)

write_state-Post :
    (state : Fields) (job_type unit id now : String)
    → Post
        (write_state (set "job" (dict (new_job job_type unit id now)) state) >>= λ _.
          pure (public_job (some (new_job job_type unit id now))))
        (Started job_type)
unfolding write_state store_state file_step new_job ◌>>=◌
write_state-Post state job_type unit id now = record {
  at = λ w a e. record {
    state = set "job" (dict (new_job job_type unit id now)) state;
    job = new_job job_type unit id now;
    stored = ground arith;
    current = get-set_self "job" _ state;
    running = refl;
    type = refl;
    shows = ground arith;
  };
}

launch-Started :
    (job_type : String) (state : Fields) → Post (launch job_type state) (Started job_type)
unfolding launch
launch-Started job_type state = Post-bind _ _ λ identifier. Post-bind _ _ λ result.
    Post-bind _ _
      λ _. Post-bind _ _ λ stamp. Post-bind _ _ λ now. write_state-Post state job_type _ _ now

start_package_job-Post : (job_type : String) → Post (start_package_job job_type) (Started job_type)
unfolding start_package_job
start_package_job-Post job_type = Post-bind _ _ λ _. Post-bind _ _ λ _.
    Post-bind _ _ λ state. Post-bind _ _ λ current. Post-bind _ _ λ _. launch-Started job_type state

-- If a start succeeds, the state file holds a running job of the type asked for, and the reply shows
-- that job.
pub start_package_job-Started :
    (job_type : String) (w : World) (shown : Value)
    → (start_package_job job_type w).0 ≡ ok shown
    → Started job_type shown (start_package_job job_type w).1
start_package_job-Started job_type w shown e = (start_package_job-Post job_type).at w shown e

-- A start is refused while the job of the state file runs: if the file can be read, its unit is a job unit that systemd
-- reports active, activating or deactivating, the request fails with `update_already_running`, the
-- one command started is the query of that unit, and every file stays.
pub start_package_job-running :
    (job_type unit out errors : String) (code : ℤ) (rest : List Outcome) (state job : Fields)
    (w : World)
    → has_key job_type package_job_commands ≡ true
    → first_event w.events ≡ false
    → first_event w.read_faults ≡ false
    → w.state ≡ json (dict state)
    → get "job" state ≡ dict job
    → get "state" job ≡ str "running"
    → get "unit" job ≡ str unit
    → matches_job_unit unit ≡ true
    → w.outcomes ≡ completed code out errors ∷ rest
    → is_one_of
        ("active" ∷ "activating" ∷ "deactivating" ∷ [])
        (lookup "ActiveState" (properties out))
      ≡ true
    → start_package_job job_type w ≡ (
      err (agent_error "update_already_running"),
      record w {
        commands = w.commands ++ (show_unit unit ∷ []);
        outcomes = rest;
        events = tail w.events;
        read_faults = tail w.read_faults;
      },
    )
unfolding start_package_job job_state running_job refresh_job load_state read_file read_json
    file_step run ◌>>=◌
start_package_job-running job_type unit out errors code rest state job w k e f s j r u m o a =
    ground arith
