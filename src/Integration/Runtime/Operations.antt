-- ===== src/Integration/Runtime/Operations.antt =====
-- The operations of `PiManagerRuntime` on its helper.
use ha_pi_manager_integratio.Prelude.{
  ℕ, ℤ, pos, negsuc, ◌+◌, ◌*◌, String, ◌==◌, Bool, true, false, Option, none, some, List, [], ◌∷◌,
  ok, ltb, if◌then◌else◌,
}
use ha_pi_manager_integratio.Prelude.Exec.{◌>>=◌, ◌>>◌, pure, lift, gets, unless}
use ha_pi_manager_integratio.Errors.{helper_protocol}
use ha_pi_manager_integratio.Models.{HostStatus, UpdateInfo}
use ha_pi_manager_integratio.Json.{Value, bool, str, Fields, get_or}
use ha_pi_manager_integratio.Contract.Status.{
  parse_json_response, parse_status, parse_update_response,
}
use ha_pi_manager_integratio.Integration.Validation.{validate_service_name}
use ha_pi_manager_integratio.Integration.Runtime.State.{Python, Io, truthy, run_helper}

abbrev first_time : List ℕ → ℕ
first_time [] = 0
first_time (t ∷ _) = t

abbrev rest_of_times : List ℕ → List ℕ
rest_of_times [] = []
rest_of_times (_ ∷ rest) = rest

-- `asyncio.get_running_loop().time()`
unfoldable pub loop_time : Io ℕ
loop_time r = (ok (first_time r.clock), record r { clock = rest_of_times r.clock })

unfoldable pub note_attempt : ℕ → Io (Unit {0})
note_attempt now r = (ok tt, record r { package_check_attempted_at = some now })

abbrev same_text : Value → String → Bool
same_text (str s) text = s == text
same_text _ text = false

abbrev nanoseconds : ℕ
nanoseconds = 1000000000

-- `max(900, int(option))`, in seconds
unfoldable pub cadence : Option ℤ → ℕ
cadence none = 21600
cadence (some (pos n)) = if ltb n 900 then 900 else n
cadence (some (negsuc n)) = 900

-- `now - attempted < cadence`, for a check that was attempted
unfoldable pub too_early : ℕ → ℕ → Option ℕ → Bool
too_early seconds now none = false
too_early seconds now (some attempted) = ltb now (attempted + seconds * nanoseconds)

module _ (py : Python) where
  -- A helper run whose answer is parsed
  unfoldable pub query : List String → Io Fields
  query args = do
    result ← run_helper py args
    lift (parse_json_response py.loads py.utf8_size result.stdout)

  unfoldable pub async_status : Io HostStatus
  unfolding query
  async_status = do
    payload ← query ("status" ∷ "--json" ∷ [])
    status ← lift (parse_status payload)
    expected ← gets (λ r. r.machine_id)
    unless (same_text expected status.machine.machine_id)
        (helper_protocol "machine_identity_changed")
    pure status

  unfoldable pub async_check_updates : Io UpdateInfo
  unfolding query
  async_check_updates = do
    payload ← query ("check-updates" ∷ "--json" ∷ [])
    updates ← lift (parse_update_response payload)
    now ← loop_time
    note_attempt now
    pure updates

  -- The check itself, once it is due
  unfoldable pub attempt_check : ℕ → Io (Option UpdateInfo)
  attempt_check now = do note_attempt now; updates ← async_check_updates; pure (some updates)

  unfoldable pub check_at_cadence : Io (Option UpdateInfo)
  unfolding attempt_check
  check_at_cadence = do
    now ← loop_time
    options ← gets (λ r. r.options)
    attempted ← gets (λ r. r.package_check_attempted_at)
    let seconds =
        cadence (py.to_int (get_or (Value.int (pos 21600)) "package_check_cadence" options))
    if too_early seconds now attempted then pure none else attempt_check now

  unfoldable pub async_check_updates_if_due : Io (Option UpdateInfo)
  unfolding check_at_cadence
  async_check_updates_if_due = do
    options ← gets (λ r. r.options)
    if truthy (get_or (bool true) "enable_package_checks" options)
        then check_at_cadence
        else pure none

  -- `async_start_package_job`, `_async_maintenance_query`, `async_reboot` and `async_shutdown`
  unfoldable pub run_operation : String → Io Fields
  unfolding query
  run_operation operation = query (operation ∷ "--json" ∷ [])

  -- `async_validate_service` and `async_restart_service`: only a valid name is sent.
  unfoldable pub service_operation : String → String → Io Fields
  unfolding query
  service_operation operation name = do
    _ ← lift (validate_service_name name)
    query (operation ∷ name ∷ "--json" ∷ [])
