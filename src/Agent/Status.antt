-- ===== src/Agent/Status.antt =====
-- `_cpu`, `_optional_service_status` and `_status`: the poll of a host. The measurements of /proc, /sys
-- and /etc that leave no state come in as what they give.
use ha_pi_manager_integratio.Prelude.{
  ℕ, ◌+◌, ℤ, pos, String, ◌==◌, Bool, false, not, Option, none, some, List, [], ◌∷◌, ◌++◌, Result,
  ok, err, if◌then◌else◌, splitlines, split_words, strip, has_prefix, decimal, take,
}
use ha_pi_manager_integratio.Prelude.Exec.{◌>>=◌, ◌>>◌, pure, lift, gets}
use ha_pi_manager_integratio.Json.{
  Value, null, bool, int, str, list, dict, Fields, end, field, of_list, get, get_or, set,
}
use ha_pi_manager_integratio.Agent.Constants.{lookup}
use ha_pi_manager_integratio.Agent.World.{
  Agent, Failure, agent_error, Completed, succeeded, run, ask, load_state, write_state,
}
use ha_pi_manager_integratio.Agent.Library.{Library}
use ha_pi_manager_integratio.Agent.Jobs.State.{properties, text_or, job_state, public_job}
use ha_pi_manager_integratio.Agent.Services.{contains, read_config, service_status}
use ha_pi_manager_integratio.Agent.Sudoers.{policy_version}
use ha_pi_manager_integratio.Agent.Maintenance.Public.{public_maintenance}

-- What is measured during the poll, with the parts of Python that it needs: `int(value)`,
-- `dict(value)`, and `round(used * 100 / total, 2)` between 0 and 100
pub record Sensors : Type 0 where
  pub stat : String
  pub loads : Result Failure (Value × Value × Value)
  pub temperature : Value
  pub machine : Result Failure Value
  pub memory : Value
  pub filesystems : Fields → Result Failure Value
  pub network : Fields → Result Failure Value
  pub to_int : Value → Result Failure ℤ
  pub to_dict : Value → Result Failure Fields
  pub usage : (total previous_total idle previous_idle : ℤ) → Value

abbrev cpu_line : List String → String
cpu_line [] = ""
cpu_line (line ∷ lines) = let rest = cpu_line lines in if has_prefix "cpu " line then line else rest

abbrev numbers_of : List String → List ℕ
numbers_of [] = []
numbers_of (word ∷ words) =
    let rest = numbers_of words in elim (decimal word) [ none ↦ rest | some n ↦ n ∷ rest ]

abbrev without_first : List String → List String
without_first [] = []
without_first (_ ∷ words) = words

abbrev total_of : List ℕ → ℕ
total_of [] = 0
total_of (n ∷ ns) = n + total_of ns

-- `values[3]` and `values[4]`, where they are there
abbrev idle_of : List ℕ → ℕ
idle_of (_ ∷ _ ∷ _ ∷ idle ∷ waiting ∷ _) = idle + waiting
idle_of (_ ∷ _ ∷ _ ∷ idle ∷ []) = idle
idle_of _ = 0

abbrev mapping_of : Value → Fields
mapping_of (dict fields) = fields
mapping_of _ = end

-- The reading of the processor, and what the state keeps of it
unfoldable pub cpu : Sensors → Fields → Result Failure (Value × Value)
cpu sensors state =
    let words = split_words (cpu_line (splitlines (strip sensors.stat))) in
    let values = numbers_of (take 8 (without_first words)) in
    let total = int (pos (total_of values)) in
    let idle = int (pos (idle_of values)) in
    let previous = mapping_of (get "cpu" state) in
    elim (sensors.to_int (get_or total "total" previous)) [
      | err e ↦ err e
      | ok previous_total ↦ elim (sensors.to_int (get_or idle "idle" previous)) [
        | err e ↦ err e
        | ok previous_idle ↦ elim sensors.loads [
          | err e ↦ err e
          | ok (load_1, load_5, load_15) ↦ ok (
            dict (
                field "usage_percent"
                  (sensors.usage (pos (total_of values)) previous_total (pos (idle_of values))
                    previous_idle)
                  (field "temperature_c" sensors.temperature
                    (field "load_1" load_1 (field "load_5" load_5 (field "load_15" load_15 end))))),
            dict (field "total" total (field "idle" idle end)),
          )
        ]
      ]
    ]

abbrev or_else : {A : Type 0} → A → Result Failure A → Result Failure A
or_else value (err (agent_error text)) = ok value
or_else value r = r

-- `try: … except AgentError: value`; what was done stays done.
unfoldable pub on_agent_error : {A : Type 0} → A → Agent A → Agent A
on_agent_error value m w = let (r, w') = m w in (or_else value r, w')

abbrev tailscale_service : String
tailscale_service = "tailscaled.service"

abbrev service_row : String → Bool → String → String → Value
service_row name active state substate = dict (
    field "name" (str name) (
      field "active" (bool active)
        (field "state" (str state) (field "substate" (str substate) end))))

-- The row of a service that cannot be read
abbrev unknown_row : String → Value
unknown_row name = service_row name false "unknown" "unknown"

abbrev no_service : Option Value
no_service = none

unfoldable pub tailscale_row : Completed → Option Value
unfolding properties
tailscale_row result =
    let seen = properties result.stdout in
    let state = text_or "unknown" (lookup "ActiveState" seen) in
    let shown = some (
      service_row tailscale_service (state == "active") state
        (text_or "unknown" (lookup "SubState" seen))) in
    if not (succeeded result)
    then none
    else if text_or "not-found" (lookup "LoadState" seen) == "not-found"
    then none
    else shown

abbrev pub show_tailscale : List String
show_tailscale =
    "/bin/systemctl" ∷ "show" ∷ tailscale_service ∷ "--property=LoadState,ActiveState,SubState"
    ∷ "--no-page" ∷ []

-- `_optional_service_status`
unfoldable pub optional_service_status : Agent (Option Value)
optional_service_status =
    on_agent_error no_service (do result ← run show_tailscale; pure (tailscale_row result))

-- The loop over the configured services
unfoldable pub service_rows : List String → List String → Agent (List Value)
service_rows [] services = pure []
service_rows (name ∷ names) services = do
  row ← on_agent_error (unknown_row name) (service_status name services)
  rows ← service_rows names services
  pure (row ∷ rows)

abbrev with_optional : List Value → Option Value → List Value
with_optional rows none = rows
with_optional rows (some row) = rows ++ (row ∷ [])

-- The rows of the services, with Tailscale behind them unless it is one of them
unfoldable pub all_rows : List String → Agent (List Value)
all_rows services = do
  rows ← service_rows services services
  if contains tailscale_service services
      then pure rows
      else (do tailscale ← optional_service_status; pure (with_optional rows tailscale))

-- `updates.setdefault(key, default)`
abbrev set_default : String → Value → Fields → Fields
set_default key default fields = set key (get_or default key fields) fields

unfoldable pub updates_of : Fields → Bool → Fields
unfolding set
updates_of updates reboot_required = set "reboot_required" (bool reboot_required) (
    set_default "security" (int (pos 0))
      (set_default "available" (int (pos 0)) (set_default "last_checked" null updates)))

abbrev job_value : Option Fields → Value
job_value none = null
job_value (some job) = dict job

abbrev agent_version : String
agent_version = "0.2.5"

-- `_status`
unfoldable pub status : Library → Sensors → Agent Value
status lib sensors = do
  (config, services) ← read_config
  loaded ← load_state end
  (processor, kept) ← lift (cpu sensors loaded)
  job ← job_state (get "job" loaded)
  let state = set "job" (job_value job) (set "cpu" kept loaded)
  write_state state
  rows ← all_rows services
  reboot_required ← ask
  updates ← lift (sensors.to_dict (get_or (dict end) "updates" state))
  policy ← gets (policy_version lib)
  machine ← lift sensors.machine
  filesystems ← lift (sensors.filesystems config)
  network ← lift (sensors.network config)
  pure (
      dict (
        field "agent_version" (str agent_version) (
          field "policy_version" (str policy) (
            field "machine" machine (
              field "cpu" processor (
                field "memory" sensors.memory (
                  field "filesystems" filesystems (
                    field "network" network (
                      field "updates" (dict (updates_of updates reboot_required)) (
                        field "services" (list (of_list rows)) (
                          field "job" (public_job job) (
                            field "maintenance" (public_maintenance (get "maintenance" state))
                              end))))))))))))
