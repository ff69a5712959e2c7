-- ===== src/Agent/Jobs/State.antt =====
-- `_job_state` and `_public_job`: a job of the state file is a JSON object.
use ha_pi_manager_integratio.Prelude.{
  pos, String, ◌<>◌, ◌==◌, Bool, false, ◌&&◌, ◌||◌, Option, none, some, List, [], ◌∷◌, Result, ok,
  err, if◌then◌else◌, splitlines, partition, decimal, all_chars, is_digit, ltb, str_len, is_zero,
  not,
}
use ha_pi_manager_integratio.Prelude.Exec.{◌>>=◌, pure, lift}
use ha_pi_manager_integratio.Json.{Value, null, int, str, dict, Fields, end, field, get, set}
use ha_pi_manager_integratio.Agent.Constants.{package_job_labels, lookup}
use ha_pi_manager_integratio.Agent.Names.{matches_job_unit}
use ha_pi_manager_integratio.Agent.World.{Agent, Failure, value_error, run, read_clock}

-- The `key=value` lines of `systemctl show`, the latest first.
abbrev collect_properties : List (String × String) → List String → List (String × String)
collect_properties seen [] = seen
collect_properties seen (line ∷ lines) =
    collect_properties (elim (partition "=" line) [ none ↦ seen | some kv ↦ kv ∷ seen ]) lines

unfoldable pub properties : String → List (String × String)
properties stdout = collect_properties [] (splitlines stdout)

abbrev pub text_or : String → Option String → String
text_or default none = default
text_or default (some text) = text

-- `value in texts`, for a property that may be missing
abbrev pub is_one_of : List String → Option String → Bool
is_one_of [] value = false
is_one_of (t ∷ texts) none = false
is_one_of (t ∷ texts) (some value) = (t == value) || is_one_of texts (some value)

-- `job.get(key) == text`
abbrev pub has_text : Value → String → Bool
has_text (str s) text = s == text
has_text _ text = false

-- `int(code) if code.isdigit() else None`: `int` refuses other digits, and more than 4300 of them.
unfoldable pub exit_code_of : String → Result Failure Value
exit_code_of code =
    let number : Result Failure Value = elim (decimal code) [
      | none ↦ err value_error
      | some n ↦ ok (int (pos n))
    ] in
    if all_chars is_digit code && not (code == "")
    then (if ltb 4300 (str_len code) then err value_error else number)
    else ok null

abbrev label_of : Value → String
label_of (str type) = text_or "Package job" (lookup type package_job_labels)
label_of _ = "Package job"

-- `job["exit_code"] == 0` for a value of `exit_code_of`
abbrev pub exited_well : Value → Bool
exited_well (int n) = is_zero n
exited_well _ = false

-- The job when its unit is inactive and dead.
unfoldable pub finished_job : Fields → Value → String → Fields
finished_job job exit_code now =
    let label : String = label_of (get "type" job) in
    let state : String = if exited_well exit_code then "succeeded" else "failed" in
    let summary : String =
      if exited_well exit_code then label <> " completed" else label <> " failed" in
    set "summary" (str summary)
      (set "finished_at" (str now) (set "state" (str state) (set "exit_code" exit_code job)))

abbrev pub show_unit : String → List String
show_unit unit =
    "/bin/systemctl" ∷ "show" ∷ unit ∷ "--property=ActiveState,SubState,ExecMainStatus"
    ∷ "--no-page" ∷ []

-- `_job_state` after `systemctl show`
unfoldable pub refresh_job : Fields → List (String × String) → Agent Fields
unfolding finished_job exit_code_of
refresh_job job seen =
    let active = lookup "ActiveState" seen in
    let dead : Agent Fields = (do
      exit_code ← lift (exit_code_of (text_or "0" (lookup "ExecMainStatus" seen)))
      now ← read_clock
      pure (finished_job job exit_code now)) in
    if is_one_of ("active" ∷ "activating" ∷ "deactivating" ∷ []) active
    then pure job
    else if is_one_of ("inactive" ∷ []) active && is_one_of ("dead" ∷ []) (lookup "SubState" seen)
    then dead
    else pure job

unfoldable pub invalid_job : Fields → Fields
invalid_job job = set "summary" (str "Invalid package job state") (set "state" (str "failed") job)

-- `_job_state` of a running job, by its unit
unfoldable pub running_job : Fields → Value → Agent Fields
unfolding refresh_job invalid_job properties
running_job job (str unit) =
    let query : Agent Fields = (do
      result ← run (show_unit unit)
      refresh_job job (properties result.stdout)) in
    if matches_job_unit unit then query else pure (invalid_job job)
running_job job _ = pure (invalid_job job)

-- `_job_state` of the value under `job`
unfoldable pub job_state : Value → Agent (Option Fields)
unfolding running_job
job_state (dict job) =
    let refreshed : Agent (Option Fields) = (do
      current ← running_job job (get "unit" job)
      pure (some current)) in
    if has_text (get "state" job) "running" then refreshed else pure (some job)
job_state _ = pure none

-- `_public_job` of a job that is an object; an empty one is `None`.
unfoldable pub public_job : Option Fields → Value
public_job none = null
public_job (some end) = null
public_job (some job) = dict (
    field "id" (get "id" job) (
      field "type" (get "type" job) (
        field "state" (get "state" job) (
          field "started_at" (get "started_at" job) (
            field "finished_at" (get "finished_at" job) (
              field "exit_code" (get "exit_code" job)
                (field "summary" (get "summary" job) end)))))))
