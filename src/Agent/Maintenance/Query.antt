-- ===== src/Agent/Maintenance/Query.antt =====
-- `_check_updates`, `_preview_package`, `_audit_packages`, `_show_package_holds` and
-- `_failed_services`.
use ha_pi_manager_integratio.Prelude.{
  ℕ, String, ε, ◌▹◌, ◌<>◌, ◌==◌, Bool, ◌&&◌, ◌||◌, not, none, some, List, [], ◌∷◌, ◌++◌, map, pos,
  nat_eq, ltb, length, take, keep_if, if◌then◌else◌, strip, lstrip, is_space, splitlines, show_nat,
}
use ha_pi_manager_integratio.Prelude.Exec.{◌>>=◌, ◌>>◌, pure, raise, unless}
use ha_pi_manager_integratio.Json.{
  Value, bool, int, str, list, dict, Fields, end, field, strings, get, set,
}
use ha_pi_manager_integratio.Agent.Constants.{package_preview_commands, lookup}
use ha_pi_manager_integratio.Agent.Names.{service_name_valid, matches_package}
use ha_pi_manager_integratio.Agent.World.{
  Agent, agent_error, succeeded, run, read_clock, ask, load_state, write_state,
}
use ha_pi_manager_integratio.Agent.Jobs.Start.{refresh_package_index}
use ha_pi_manager_integratio.Agent.Services.{contains}
use ha_pi_manager_integratio.Agent.Maintenance.Counts.{apt_counts, available_count, security_count}

abbrev pub object_or_empty : Value → Fields
object_or_empty (dict fields) = fields
object_or_empty _ = end

abbrev nat : ℕ → Value
nat n = int (pos n)

-- `_write_maintenance`
unfoldable pub write_maintenance : String → Fields → Agent Unit
write_maintenance key value = do
  state ← load_state end
  let maintenance = object_or_empty (get "maintenance" state)
  write_state (set "maintenance" (dict (set key (dict value) maintenance)) state)

abbrev pub simulate_upgrade : List String
simulate_upgrade = "/usr/bin/apt-get" ∷ "-s" ∷ "-q" ∷ "upgrade" ∷ []

-- `_check_updates`: the state is read before the commands run, and written after them.
unfoldable pub check_updates : Agent Value
check_updates = do
  state ← load_state end
  refresh_package_index "package_check_failed"
  result ← run simulate_upgrade
  unless (succeeded result) (agent_error "package_check_failed")
  now ← read_clock
  let updates = dict (
      field "last_checked" (str now) (
        field "available" (nat (available_count result.stdout))
          (field "security" (nat (security_count result.stdout)) end)))
  write_state (set "updates" updates state)
  pure updates

abbrev summary_of : ℕ × ℕ × ℕ × ℕ → String
summary_of (upgraded, newly_installed, to_remove, not_upgraded) =
    show_nat upgraded
    <> " upgrades, "
    <> show_nat newly_installed
    <> " new packages, "
    <> show_nat to_remove
    <> " removals, "
    <> show_nat not_upgraded
    <> " held back"

unfoldable pub preview_record : String → String → ℕ × ℕ × ℕ × ℕ → Bool → Fields
preview_record operation now counts reboot_required = field "operation" (str operation) (
    field "last_checked" (str now) (
      field "upgraded" (nat counts.0) (
        field "newly_installed" (nat counts.1) (
          field "to_remove" (nat counts.2) (
            field "not_upgraded" (nat counts.3) (
              field "reboot_required" (bool reboot_required)
                (field "summary" (str (summary_of counts)) end)))))))

-- `_preview_package` of an operation of the table
unfoldable pub run_preview : String → List String → Agent Value
unfolding preview_record
run_preview operation command = do
  if (operation == "preview-upgrade") || (operation == "preview-dist-upgrade")
      then (do refresh_package_index "package_preview_failed"; pure tt)
      else pure tt
  result ← run command
  unless (succeeded result) (agent_error "package_preview_failed")
  now ← read_clock
  reboot_required ← ask
  let preview =
      preview_record operation now (apt_counts (result.stdout <> "\n" <> result.stderr))
        reboot_required
  state ← load_state end
  let maintenance = object_or_empty (get "maintenance" state)
  let previews = set operation (dict preview) (object_or_empty (get "previews" maintenance))
  write_state (set "maintenance" (dict (set "previews" (dict previews) maintenance)) state)
  pure (dict preview)

unfoldable pub preview_package : String → Agent Value
unfolding run_preview
preview_package operation = elim (lookup operation package_preview_commands) [
  | none ↦ raise (agent_error "operation_not_allowed")
  | some command ↦ run_preview operation command
]

abbrev nonblank_lines : String → List String
nonblank_lines text = keep_if (λ line. not (line == "")) (map strip (splitlines text))

abbrev cap_256 : ℕ → ℕ
cap_256 n = if ltb n 256 then n else 256

-- `_audit_packages`: both commands may fail, and the record says so.
unfoldable pub audit_packages : Agent Value
audit_packages = do
  dpkg ← run ("/usr/bin/dpkg" ∷ "--audit" ∷ [])
  apt ← run ("/usr/bin/apt-get" ∷ "check" ∷ [])
  let issues = cap_256 (length (nonblank_lines dpkg.stdout))
  now ← read_clock
  let healthy = succeeded dpkg && nat_eq issues 0 && succeeded apt
  let audit = field "last_checked" (str now) (
      field "healthy" (bool healthy) (
        field "dpkg_issues" (nat issues) (
          field "apt_healthy" (bool (succeeded apt)) (
            field "summary"
              (str (
                if healthy then "Package database healthy" else "Package database needs attention"))
              end))))
  write_maintenance "audit" audit
  pure (dict audit)

-- `_show_package_holds`; a name that matches the expression has 256 characters at most.
unfoldable pub show_package_holds : Agent Value
show_package_holds = do
  result ← run ("/usr/bin/apt-mark" ∷ "showhold" ∷ [])
  unless (succeeded result) (agent_error "package_holds_failed")
  let packages = keep_if matches_package (take 256 (nonblank_lines result.stdout))
  now ← read_clock
  let holds = field "last_checked" (str now) (field "packages" (list (strings packages)) end)
  write_maintenance "holds" holds
  pure (dict holds)

abbrev word_front : String → String
word_front ε = ε
word_front (c ▹ s) = if is_space c then ε else c ▹ word_front s

-- `line.split(maxsplit=1)[0] if line.split() else ""`
unfoldable pub first_word : String → String
first_word line = word_front (lstrip line)

-- The loop of `_failed_services`, which stops at 256 names
unfoldable pub collect_services : List String → List String → List String
unfolding first_word
collect_services services [] = services
collect_services services (line ∷ lines) =
    let name = first_word line in
    let more : List String =
      if not (name == "") && service_name_valid name && not (contains name services)
      then services ++ (name ∷ [])
      else services in
    let rest = collect_services more lines in if nat_eq (length more) 256 then more else rest

-- `_failed_services`
unfoldable pub failed_services : Agent Value
unfolding collect_services
failed_services = do
  result ← run (
      "/bin/systemctl" ∷ "list-units" ∷ "--failed" ∷ "--type=service" ∷ "--no-legend" ∷ "--no-pager"
      ∷ [])
  unless (succeeded result) (agent_error "failed_services_query_failed")
  let services = collect_services [] (splitlines result.stdout)
  now ← read_clock
  let failed = field "last_checked" (str now) (field "services" (list (strings services)) end)
  write_maintenance "failed_services" failed
  pure (dict failed)
