-- ===== src/Agent/World.antt =====
-- What the helper sees of its host: the JSON files, the files that an upgrade replaces, the commands
-- that it has started, and the answers of everything outside. An answer is a list of what comes next:
-- how a command ends, what the clock and the uuid generator give, whether a file operation fails, and,
-- in `read_faults`, whether the reading of a JSON file raises `OSError`.
use ha_pi_manager_integratio.Prelude.{
  ℕ, ℤ, String, Bool, true, false, List, [], ◌∷◌, ◌++◌, Result, ok, err, if◌then◌else◌, is_zero,
}
use ha_pi_manager_integratio.Prelude.Exec.{Exec, ◌>>=◌, ◌>>◌}
use ha_pi_manager_integratio.Json.{Value, dict, Fields}

-- What a JSON file holds: `undecodable` is a text that is not UTF-8, or one with an integer of more than
-- 4300 digits.
pub data Document : Type 0 where
  missing unreadable undecodable not_json : Document
  json : Value → Document

-- How a started command ends: `oversized` is an output above `MAX_COMMAND_OUTPUT`, and `no_files` a
-- failure of `tempfile.TemporaryFile` before the command starts.
pub data Outcome : Type 0 where
  unavailable timed_out oversized no_files : Outcome
  completed : ℤ → String → String → Outcome

-- `AgentError`, `OSError`, `ValueError` and its subclasses, and `TypeError`, which `main` lets pass.
pub data Failure : Type 0 where
  agent_error : String → Failure
  os_error value_error type_error : Failure

pub record World : Type 0 where
  pub config : Document
  pub trust : Document
  pub state : Document
  pub agent_file : List ℕ
  pub ctl_file : List ℕ
  pub sudoers_file : String
  pub is_root : Bool
  pub commands : List (List String)
  pub outcomes : List Outcome
  pub readings : List String
  pub events : List Bool
  pub read_faults : List Bool

abbrev pub Agent : Type 0 → Type 0
Agent = Exec World Failure

pub record Completed : Type 0 where
  pub returncode : ℤ
  pub stdout : String
  pub stderr : String

abbrev pub succeeded : Completed → Bool
succeeded c = is_zero c.returncode

abbrev pub finish : Outcome → Result Failure Completed
finish unavailable = err (agent_error "command_unavailable")
finish timed_out = err (agent_error "command_timeout")
finish no_files = err os_error
finish oversized = err (agent_error "command_output_too_large")
finish (completed code out errors) =
    ok (record { returncode = code; stdout = out; stderr = errors })

abbrev pub first_outcome : List Outcome → Outcome
first_outcome [] = unavailable
first_outcome (o ∷ _) = o

abbrev pub tail : {A : Type 0} → List A → List A
tail [] = []
tail (_ ∷ rest) = rest

-- `_run`
unfoldable pub run : List String → Agent Completed
run args w = (
  finish (first_outcome w.outcomes),
  record w { commands = w.commands ++ (args ∷ []); outcomes = tail w.outcomes },
)

abbrev pub first_reading : List String → String
first_reading [] = ""
first_reading (r ∷ _) = r

-- `_now()`, `uuid.uuid4().hex`, a formatted date, the name of a temporary file
unfoldable pub read_clock : Agent String
read_clock w = (ok (first_reading w.readings), record w { readings = tail w.readings })

abbrev pub first_event : List Bool → Bool
first_event [] = false
first_event (b ∷ _) = b

-- A question to the file system, such as `Path.exists` or `Path.is_symlink`.
unfoldable pub ask : Agent Bool
ask w = (ok (first_event w.events), record w { events = tail w.events })

-- A file operation that may raise `OSError` and leaves the files of the model alone.
unfoldable pub file_step : Agent Unit
file_step w =
    ((if first_event w.events then err os_error else ok tt), record w { events = tail w.events })

-- `_read_json` of a file with this content
unfoldable pub read_json : Document → Fields → Result Failure Fields
read_json undecodable default = err value_error
read_json (json (dict fields)) default = ok fields
read_json _ default = ok default

-- `_write_json`: the directory, the temporary file and its mode come before `os.replace`, so a
-- failure leaves the old content.
unfoldable pub store_state : Fields → Agent Unit
store_state value w = (ok tt, record w { state = json (dict value) })

unfoldable pub write_state : Fields → Agent Unit
unfolding ◌>>=◌ file_step store_state
write_state value = do file_step; store_state value

unfoldable pub store_config : Fields → Agent Unit
store_config value w = (ok tt, record w { config = json (dict value) })

unfoldable pub write_config : Fields → Agent Unit
unfolding ◌>>=◌ file_step store_config
write_config value = do file_step; store_config value

unfoldable pub store_trust : Fields → Agent Unit
store_trust value w = (ok tt, record w { trust = json (dict value) })

unfoldable pub write_trust : Fields → Agent Unit
unfolding ◌>>=◌ file_step store_trust
write_trust value = do file_step; store_trust value

-- `_read_json` of a file that may fail to be read
unfoldable pub read_file : Bool → Document → Fields → Result Failure Fields
unfolding read_json
read_file true document default = ok default
read_file false document default = read_json document default

abbrev pub next_read : World → World
next_read w = record w { read_faults = tail w.read_faults }

-- `_read_json(STATE_PATH, default)`, and so for the others
unfoldable pub load_state : Fields → Agent Fields
unfolding read_file
load_state default w = (read_file (first_event w.read_faults) w.state default, next_read w)

unfoldable pub load_config : Fields → Agent Fields
unfolding read_file
load_config default w = (read_file (first_event w.read_faults) w.config default, next_read w)

unfoldable pub load_trust : Fields → Agent Fields
unfolding read_file
load_trust default w = (read_file (first_event w.read_faults) w.trust default, next_read w)

abbrev as_error : {A : Type 0} → String → Result Failure A → Result Failure A
as_error code (err os_error) = err (agent_error code)
as_error code r = r

-- `except OSError as err: raise AgentError(code) from err`; what was done stays done.
unfoldable pub on_os_error : {A : Type 0} → String → Agent A → Agent A
on_os_error code m w = let (r, w') = m w in (as_error code r, w')

-- `os.replace` of a prepared file over the helper, its launcher and the sudo policy
unfoldable pub replace_agent : List ℕ → Agent Unit
replace_agent source w = (ok tt, record w { agent_file = source })

unfoldable pub replace_ctl : List ℕ → Agent Unit
replace_ctl source w = (ok tt, record w { ctl_file = source })

unfoldable pub replace_sudoers : String → Agent Unit
replace_sudoers content w = (ok tt, record w { sudoers_file = content })
