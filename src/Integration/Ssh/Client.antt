-- ===== src/Integration/Ssh/Client.antt =====
-- `AsyncSSHClient`: its connection, its commands, and the decision on a host key. A handshake is what
-- the library does with an attempt to connect, an outcome what it does with a command.
use ha_pi_manager_integratio.Prelude.{
  ℕ, ◌*◌, ℤ, String, ◌==◌, Bool, true, false, not, Option, none, some, List, [], ◌∷◌, ◌++◌, ok, err,
  any, leb, length, take, append, if◌then◌else◌,
}
use ha_pi_manager_integratio.Prelude.Exec.{Exec, ◌>>=◌, ◌>>◌, pure, raise, lift, gets, unless}
use ha_pi_manager_integratio.Errors.{
  Exc, PyError, connection, authentication, fingerprint_mismatch, fingerprint_unavailable,
  value_error,
}
use ha_pi_manager_integratio.Models.{CommandResult}
use ha_pi_manager_integratio.Integration.Ssh.Words.{join}

-- How authentication ends, once the host key is approved
pub data Login : Type 0 where
  granted denied broken : Login

-- The key cannot be imported, asyncssh is missing, there is no answer, the host presents a key, or
-- the library asks for no decision on a key.
pub data Handshake : Type 0 where
  no_library bad_key unreachable : Handshake
  presents : String → Login → Handshake
  keyless : Login → Handshake

pub data Outcome : Type 0 where
  finished : ℤ → String → String → Outcome
  lost : Outcome
  raised : PyError → Outcome

-- How an upload ends
pub data Transfer : Type 0 where
  carried interrupted : Transfer
  refused : PyError → Transfer

-- The commands sent, each with what is written to it, and the uploads begun, each with its path, its
-- text and its mode
pub record Client : Type 0 where
  pub fingerprint : Option String
  pub connected : Bool
  pub sent : List (String × Option String)
  pub outcomes : List Outcome
  pub uploads : List (String × String × ℕ)
  pub transfers : List Transfer

abbrev pub Ssh : Type 0 → Type 0
Ssh = Exec Client PyError

-- UTF-8 with `errors="replace"`, and back with `errors="ignore"`
pub record Utf8 : Type 0 where
  pub encode : String → List ℕ
  pub decode_ignore : List ℕ → String

-- `_bounded`, at 256 KiB
unfoldable pub bounded : Utf8 → String → String
bounded utf8 value =
    let encoded = utf8.encode value in
    if leb (length encoded) (256 * 1024)
    then value
    else utf8.decode_ignore (take (256 * 1024) encoded)

-- `_verify_fingerprint`
unfoldable pub verify_fingerprint : String → Option String → Bool → Exc Bool
verify_fingerprint observed none allow_first_trust =
    if allow_first_trust then ok true else err (fingerprint_mismatch none (some observed))
verify_fingerprint observed (some expected) allow_first_trust =
    if observed == expected
    then ok true
    else err (fingerprint_mismatch (some expected) (some observed))

unfoldable pub note_fingerprint : String → Ssh (Unit {0})
note_fingerprint observed c = (ok tt, record c { fingerprint = some observed })

unfoldable pub open_connection : Ssh (Unit {0})
open_connection c = (ok tt, record c { connected = true })

-- `close`
unfoldable pub close : Ssh (Unit {0})
close c = (ok tt, record c { connected = false })

abbrev login_result : Login → Exc (Unit {0})
login_result granted = ok tt
login_result denied = err (authentication "SSH authentication failed")
login_result broken = err (connection "SSH connection failed")

-- `not self.fingerprint`
abbrev pub is_blank : Option String → Bool
is_blank none = true
is_blank (some text) = text == ""

unfoldable pub require_fingerprint : Ssh (Unit {0})
unfolding close
require_fingerprint = do
  observed ← gets (λ c. c.fingerprint)
  if is_blank observed
      then (do close; raise (fingerprint_unavailable "SSH did not provide a host fingerprint"))
      else pure tt

-- `connect`; the password and the key are the library's concern. What the decision on a host key
-- raises passes through the library to the caller, as the code relies on.
unfoldable pub connect : Option String → Bool → Handshake → Ssh (Unit {0})
unfolding note_fingerprint verify_fingerprint open_connection require_fingerprint
connect expected allow_first_trust no_library =
    raise (connection "SSH transport dependency is unavailable")
connect expected allow_first_trust bad_key = raise (value_error "Invalid private key")
connect expected allow_first_trust unreachable = raise (connection "SSH connection failed")
connect expected allow_first_trust (presents observed login) = do
  note_fingerprint observed
  _ ← lift (verify_fingerprint observed expected allow_first_trust)
  lift (login_result login)
  open_connection
  require_fingerprint
connect expected allow_first_trust (keyless login) = do
  lift (login_result login)
  open_connection
  require_fingerprint

abbrev pub first_outcome : List Outcome → Outcome
first_outcome [] = lost
first_outcome (o ∷ _) = o

abbrev pub later_outcomes : List Outcome → List Outcome
later_outcomes [] = []
later_outcomes (_ ∷ rest) = rest

unfoldable pub send : String → Option String → Ssh Outcome
send command input c = (
  ok (first_outcome c.outcomes),
  record c { sent = c.sent ++ ((command, input) ∷ []); outcomes = later_outcomes c.outcomes },
)

abbrev pub result_of : Utf8 → Outcome → Exc CommandResult
result_of utf8 (finished code out errors) =
    ok (record { returncode = code; stdout = bounded utf8 out; stderr = bounded utf8 errors })
result_of utf8 lost = err (connection "SSH command failed")
result_of utf8 (raised e) = err e

-- `not args or any(not item for item in args)`
abbrev pub is_empty_command : List String → Bool
is_empty_command [] = true
is_empty_command args = any (λ item. item == "") args

module _ (utf8 : Utf8) where
  -- `_run`
  unfoldable pub run : List String → Option String → Ssh CommandResult
  unfolding send bounded
  run args input = do
    connected ← gets (λ c. c.connected)
    unless connected (connection "SSH connection is not open")
    unless (not (is_empty_command args))
        (value_error "SSH command arguments must be non-empty strings")
    outcome ← send (join args) input
    lift (result_of utf8 outcome)

  unfoldable pub run_sudo : List String → String → Ssh CommandResult
  run_sudo args password = do
    unless (not (password == "")) (authentication "Bootstrap authentication is required")
    run ("/usr/bin/sudo" ∷ "-S" ∷ "-p=" ∷ "--" ∷ args) (some (append password "\n"))

  unfoldable pub run_sudo_nopass : List String → Ssh CommandResult
  run_sudo_nopass args = run ("/usr/bin/sudo" ∷ "-n" ∷ "--" ∷ args) none

abbrev transfer_result : List Transfer → Exc (Unit {0})
transfer_result [] = err (connection "SSH file transfer failed")
transfer_result (carried ∷ _) = ok tt
transfer_result (interrupted ∷ _) = err (connection "SSH file transfer failed")
transfer_result (refused e ∷ _) = err e

abbrev pub later_transfers : List Transfer → List Transfer
later_transfers [] = []
later_transfers (_ ∷ rest) = rest

unfoldable pub transfer : String → String → ℕ → Ssh (Unit {0})
transfer path content mode c = (
  transfer_result c.transfers,
  record c {
    uploads = c.uploads ++ ((path, content, mode) ∷ []);
    transfers = later_transfers c.transfers;
  },
)

-- `upload_text`
unfoldable pub upload_text : String → String → ℕ → Ssh (Unit {0})
unfolding transfer
upload_text path content mode = do
  connected ← gets (λ c. c.connected)
  unless connected (connection "SSH connection is not open")
  transfer path content mode
