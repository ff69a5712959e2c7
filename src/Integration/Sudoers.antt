-- ===== src/Integration/Sudoers.antt =====
-- custom_components/pi_manager/sudoers.py: the policy that the integration renders and checks.
pub mod Agreement
use ha_pi_manager_integratio.Prelude.{
  ℕ, String, ◌==◌, ◌<>◌, Bool, true, false, ◌&&◌, Option, none, some, List, [], ◌∷◌, ok, err, any,
  split_commas, partition, after_prefix, if◌then◌else◌,
}
use ha_pi_manager_integratio.Prelude.Results.{◌>>=◌, ◌>>◌, require}
use ha_pi_manager_integratio.Errors.{Exc, PyError, value_error}
use ha_pi_manager_integratio.Agent.Names.{matches_username}
use ha_pi_manager_integratio.Agent.Services.{contains}
use ha_pi_manager_integratio.Agent.Sudoers.{
  policy_marker, policy_prefix, comments_of, policy_lines_of, same_texts,
}
use ha_pi_manager_integratio.Integration.Validation.{validate_username}

abbrev pub helper_version : String
helper_version = "0.2.5"

-- `SUDOERS_COMMANDS`
abbrev pub sudoers_commands : List String
sudoers_commands =
    "/usr/local/sbin/pi-managerctl status --json"
    ∷ "/usr/local/sbin/pi-managerctl check-updates --json"
    ∷ "/usr/local/sbin/pi-managerctl update --json" ∷ "/usr/local/sbin/pi-managerctl upgrade --json"
    ∷ "/usr/local/sbin/pi-managerctl dist-upgrade --json"
    ∷ "/usr/local/sbin/pi-managerctl preview-upgrade --json"
    ∷ "/usr/local/sbin/pi-managerctl preview-dist-upgrade --json"
    ∷ "/usr/local/sbin/pi-managerctl preview-autoremove --json"
    ∷ "/usr/local/sbin/pi-managerctl audit-packages --json"
    ∷ "/usr/local/sbin/pi-managerctl show-package-holds --json"
    ∷ "/usr/local/sbin/pi-managerctl failed-services --json"
    ∷ "/usr/local/sbin/pi-managerctl configure-packages --json"
    ∷ "/usr/local/sbin/pi-managerctl repair-packages --json"
    ∷ "/usr/local/sbin/pi-managerctl autoremove --json"
    ∷ "/usr/local/sbin/pi-managerctl autoclean --json"
    ∷ "/usr/local/sbin/pi-managerctl clean-cache --json"
    ∷ "/usr/local/sbin/pi-managerctl reboot --json"
    ∷ "/usr/local/sbin/pi-managerctl shutdown --json"
    ∷ "/usr/local/sbin/pi-managerctl service-status *"
    ∷ "/usr/local/sbin/pi-managerctl service-restart *"
    ∷ "/usr/local/sbin/pi-managerctl service-validate *"
    ∷ "/usr/local/sbin/pi-managerctl configure-services --json --services-json *"
    ∷ "/usr/local/sbin/pi-managerctl configure-trust --json --secret *"
    ∷ "/usr/local/sbin/pi-managerctl upgrade-helper --json --version * --agent * --ctl * --signature *"
    ∷ "/usr/local/sbin/pi-managerctl upgrade-helper --json --version * --agent * --ctl * --signature * --sudoers *"
    ∷ []

abbrev policy_invalid : PyError
policy_invalid = value_error "sudoers_policy_invalid"

-- The commands of the policy line, behind any user or behind the given one
unfoldable pub command_text : String → Option String → Exc String
command_text line none = elim (partition policy_prefix line) [
  | none ↦ err policy_invalid
  | some (username, commands) ↦
      if matches_username username then ok commands else err policy_invalid
]
command_text line (some username) = do
  normalized ← validate_username username
  elim (after_prefix (normalized <> policy_prefix) line) [
    | none ↦ err policy_invalid
    | some commands ↦ ok commands
  ]

unfoldable pub check_policy_line : List String → Option String → Exc (Unit {0})
unfolding command_text
check_policy_line (line ∷ []) username = do
  commands ← command_text line username
  require (same_texts (split_commas commands) sudoers_commands) policy_invalid
check_policy_line _ username = err policy_invalid

-- `validate_sudoers_policy`
unfoldable pub validate_policy : String → Option String → String → Exc (Unit {0})
unfolding check_policy_line
validate_policy content username version = do
  require (contains (policy_marker <> version) (comments_of content)) policy_invalid
  check_policy_line (policy_lines_of content) username

-- `render_sudoers`: `read` is the outcome of reading the template, and `fill` stands for the two
-- calls of `str.replace`, of the user and then of the version.
unfoldable pub render_sudoers :
    (String → String → String → String) → Option String → String → Exc String
unfolding validate_policy
render_sudoers fill read username = do
  normalized ← validate_username username
  let sources : Exc String = elim read [
    | none ↦ err (value_error "sudoers_source_unavailable")
    | some template ↦ ok template
  ]
  template ← sources
  let rendered = fill template normalized helper_version
  validate_policy rendered (some normalized) helper_version
  ok rendered
