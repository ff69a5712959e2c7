-- ===== src/Integration/Runtime/State.antt =====
-- The state of `PiManagerRuntime`, `async_ensure_connected`, `async_run_helper` and `_error_code`.
use ha_pi_manager_integratio.Prelude.{
  ℕ, ℤ, String, ◌==◌, Bool, true, false, not, Option, none, some, List, [], ◌∷◌, ◌++◌, ok, err, any,
  strip, splitlines, if◌then◌else◌, is_zero,
}
use ha_pi_manager_integratio.Prelude.Exec.{Exec, ◌>>=◌, ◌>>◌, pure, raise, lift}
use ha_pi_manager_integratio.Errors.{PyError, connection, helper_protocol, value_error, Exc}
use ha_pi_manager_integratio.Models.{CommandResult, result_ok}
use ha_pi_manager_integratio.Json.{
  Loaded, decoded, malformed, too_long, Value, null, bool, int, float, str, list, dict, nil, cons,
  Fields, end, field, get,
}
use ha_pi_manager_integratio.Json.Floats.{equals_nat}

-- What the integration calls of Python: `json.loads`, the size of a text in UTF-8, and `int` of an
-- option, which is missing where it raises `TypeError` or `ValueError`.
pub record Python : Type 0 where
  pub loads : String → Loaded
  pub utf8_size : String → ℕ
  pub to_int : Value → Option ℤ

-- `client` tells whether there is a connection; `sent` holds the arguments of every helper run, and
-- `refreshes` counts the requests to the coordinator. The clock is in nanoseconds.
pub record Runtime : Type 0 where
  pub options : Fields
  pub machine_id : Value
  pub client : Bool
  pub helper_upgrade_attempted : Bool
  pub package_check_attempted_at : Option ℕ
  pub sent : List (List String)
  pub refreshes : ℕ
  pub connects : List (Exc (Unit {0}))
  pub answers : List (Exc CommandResult)
  pub clock : List ℕ

abbrev pub Io : Type 0 → Type 0
Io = Exec Runtime PyError

-- `bool(value)`
unfoldable pub truthy : Value → Bool
unfolding equals_nat
truthy null = false
truthy (bool b) = b
truthy (int n) = not (is_zero n)
truthy (float x) = not (equals_nat x 0)
truthy (str text) = not (text == "")
truthy (list nil) = false
truthy (list (cons _ _)) = true
truthy (dict end) = false
truthy (dict (field _ _ _)) = true

abbrev rest_of : {A : Type 0} → List A → List A
rest_of [] = []
rest_of (_ ∷ rest) = rest

abbrev first_connect : List (Exc (Unit {0})) → Exc (Unit {0})
first_connect [] = err (connection "SSH connection failed")
first_connect (c ∷ _) = c

abbrev first_answer : List (Exc CommandResult) → Exc CommandResult
first_answer [] = err (connection "SSH command failed")
first_answer (a ∷ _) = a

abbrev is_ok : {A : Type 0} → Exc A → Bool
is_ok (ok _) = true
is_ok (err _) = false

-- `async_ensure_connected`: an attempt that fails closes its client and leaves none.
unfoldable pub ensure_connected : Io (Unit {0})
ensure_connected r =
    let attempt = first_connect r.connects in
    if r.client
    then (ok tt, r)
    else (attempt, record r { client = is_ok attempt; connects = rest_of r.connects })

-- `client.run_sudo_nopass([REMOTE_CTL_PATH, *args])`
unfoldable pub run_sudo_nopass : List String → Io CommandResult
run_sudo_nopass args r =
    (first_answer r.answers, record r { sent = r.sent ++ (args ∷ []); answers = rest_of r.answers })

-- `except PiManagerConnectionError`: the client is dropped and the error goes on.
unfoldable pub drop_client_on : Exc CommandResult → Runtime → Exc CommandResult × Runtime
drop_client_on (err (connection text)) r = (err (connection text), record r { client = false })
drop_client_on other r = (other, r)

unfoldable pub exchange : List String → Io CommandResult
unfolding run_sudo_nopass drop_client_on
exchange args r = let (answer, r') = run_sudo_nopass args r in drop_client_on answer r'

abbrev payload_code : Value → Option Value
payload_code (dict payload) = some (get "error" payload)
payload_code _ = none

abbrev code_of : Option Value → Option String
code_of (some (dict error)) = elim (get "code" error) as (λ _. Option String) [
  | str text ↦ some text
  | _ ↦ none
]
code_of _ = none

module _ (py : Python) where
  -- `_error_code`
  unfoldable pub error_code : String → String → Exc (Option String)
  error_code stdout stderr =
      let denied : Option String =
        if any (λ line. strip line == "sudo: a password is required") (splitlines stderr)
        then some "helper_privilege_denied"
        else none in
      elim (py.loads stdout) [
        | too_long text ↦ err (value_error text)
        | malformed ↦ ok denied
        | decoded payload ↦ elim (code_of (payload_code payload)) [
          | some text ↦ ok (some text)
          | none ↦ ok denied
        ]
      ]

  -- `if error_code: …`: an empty code counts as none.
  unfoldable pub failed_command : Option String → PyError
  failed_command none = helper_protocol "helper_command_failed"
  failed_command (some text) =
      if text == "" then helper_protocol "helper_command_failed" else helper_protocol text

  -- `async_run_helper`. The lock changes nothing in a single flow of calls.
  unfoldable pub run_helper : List String → Io CommandResult
  unfolding error_code failed_command
  run_helper args = do
    ensure_connected
    result ← exchange args
    if result_ok result
        then pure result
        else (do code ← lift (error_code result.stdout result.stderr); raise (failed_command code))
