-- ===== src/Integration/Bootstrap/Opened.antt =====
-- The connection with the new key: the key that it saw, and the status that it read.
use ha_pi_manager_integratio.Prelude.{
  String, ◌≡◌, refl, ap, sym, ◌∙◌, inl, inr, Bool, true, false, Option, none, some, List, [], ◌∷◌,
  ok, arith, eq_iff,
}
use ha_pi_manager_integratio.Prelude.Exec.{◌>>=◌, lift, unless, raise}
use ha_pi_manager_integratio.Prelude.Preserves.{
  Preserves, Preserves-bind, Preserves-unless, Preserves-lift,
}
use ha_pi_manager_integratio.Prelude.Returns.{
  Yields, Yields-bind, Yields-behind, Yields-pure, unless-ok,
}
use ha_pi_manager_integratio.Errors.{PyError}
use ha_pi_manager_integratio.Models.{
  HostDiscovery, HostStatus, KeyMaterial, CommandResult, result_ok,
}
use ha_pi_manager_integratio.Json.{Fields}
use ha_pi_manager_integratio.Contract.Status.{parse_json_response, parse_status}
use ha_pi_manager_integratio.Integration.Ssh.Client.{
  Client, Handshake, no_library, bad_key, unreachable, presents, keyless, run, run_sudo_nopass,
  send, connect, close, note_fingerprint, verify_fingerprint, open_connection, require_fingerprint,
}
use ha_pi_manager_integratio.Integration.Ssh.Answered.{Follows, Answered, Follows-run, run-Answered}
use ha_pi_manager_integratio.Integration.Ssh.Trust.{connect-IsTrusted}
use ha_pi_manager_integratio.Integration.Bootstrap.Session.{Library, Options, Session, on_final}
use ha_pi_manager_integratio.Integration.Bootstrap.Install.{
  checked, remote_ctl_path, configure_remote,
}
use ha_pi_manager_integratio.Integration.Bootstrap.Whole.{verified_status}

-- The client that `client_factory` gives for the new key: not connected, and without a key seen
abbrev pub fresh_client : Client → Client
fresh_client c = record c { fingerprint = none; connected = false; sent = []; uploads = [] }

-- The client `now` has seen the expected host key and no other. Since `start` it has sent the status
-- command, and the outcome at the place of that command is a status of the expected machine.
pub record IsVerified (library : Library) (machine_id fingerprint : String) (start now : Client)
    : Type 0 where
  pub trusted : now.fingerprint ≡ some fingerprint
  pub answer : CommandResult
  pub answered :
      Answered library.utf8 start now
        ("/usr/bin/sudo" ∷ "-n" ∷ "--" ∷ remote_ctl_path ∷ "status" ∷ "--json" ∷ [])
        none
        answer
  pub succeeded : result_ok answer ≡ true
  pub payload : Fields
  pub decoded :
      parse_json_response library.python.loads library.python.utf8_size answer.stdout ≡ ok payload
  pub status : HostStatus
  pub parsed : parse_status payload ≡ ok status
  pub same_machine : status.machine.machine_id ≡ machine_id

-- The client has seen the key, and follows `start`.
pub record IsOpen (fingerprint : String) (start now : Client) : Type 0 where
  trusted : now.fingerprint ≡ some fingerprint
  follows : Follows start now

-- It has also got the answer to the status command.
pub record HasStatus (library : Library) (fingerprint : String) (start : Client)
    (answer : CommandResult) (now : Client) : Type 0 where
  trusted : now.fingerprint ≡ some fingerprint
  answered :
      Answered library.utf8 start now
        ("/usr/bin/sudo" ∷ "-n" ∷ "--" ∷ remote_ctl_path ∷ "status" ∷ "--json" ∷ [])
        none
        answer

run-fingerprint :
    (library : Library) (args : List String) (input : Option String) (c : Client)
    → (run library.utf8 args input c).1.fingerprint ≡ c.fingerprint
unfolding run send unless ◌>>=◌
run-fingerprint library args input c = ground arith

module _ (library : Library) (fingerprint : String) (start : Client) where
  abbrev pub Open : Session → Type 0
  Open s = IsOpen fingerprint start s.final_client

  abbrev Asked : CommandResult → Session → Type 0
  Asked answer s = HasStatus library fingerprint start answer s.final_client

  Open-run : (args : List String) → Preserves Open (on_final (run_sudo_nopass library.utf8 args))
  unfolding on_final run_sudo_nopass
  Open-run args = record {
    at = λ s held. record {
      trusted = run-fingerprint library _ none s.final_client ∙ held.trusted;
      follows = (Follows-run library.utf8 _ none start).at s.final_client held.follows;
    };
  }

  Open-checked :
      (e : PyError) (args : List String)
      → Preserves Open (checked e (on_final (run_sudo_nopass library.utf8 args)))
  Open-checked e args = Preserves-bind _ _ (Open-run args) (λ result. Preserves-unless _ e)

  pub Open-configure_remote :
      (key : KeyMaterial) (services : List String) (options : Options)
      → Preserves Open (configure_remote library key services options)
  unfolding configure_remote
  Open-configure_remote key services options =
      Preserves-bind _ _ (Open-checked _ _) (λ _. Open-checked _ _)

  run-Asked :
      (s : Session) (answer : CommandResult)
      → Open s
      → (on_final (run_sudo_nopass library.utf8 (remote_ctl_path ∷ "status" ∷ "--json" ∷ [])) s).0
        ≡ ok answer
      → Asked answer
          (on_final (run_sudo_nopass library.utf8 (remote_ctl_path ∷ "status" ∷ "--json" ∷ [])) s).1
  unfolding on_final run_sudo_nopass
  run-Asked s answer held e = record {
    trusted = run-fingerprint library _ none s.final_client ∙ held.trusted;
    answered = run-Answered library.utf8 _ none start s.final_client answer held.follows e;
  }

  -- What `verified_status` leaves
  abbrev Verified : String → Session → Type 0
  Verified machine_id s = IsVerified library machine_id fingerprint start s.final_client

  pub verified_status-IsVerified :
      (discovery : HostDiscovery)
      → Yields Open (λ _. Verified discovery.machine_id) (verified_status library discovery)
  unfolding verified_status lift
  verified_status-IsVerified discovery = Yields-bind {R = Asked} _ _ (λ s answer held answered. (
    run-Asked s answer held answered,
    Yields-behind _ _ (Preserves-unless _ _) (λ s1 u _ succeeded.
        Yields-behind _ _ (Preserves-lift _) (λ s2 payload _ decoded.
          Yields-behind _ _ (Preserves-lift _) (λ s3 status _ parsed.
            Yields-behind _ _ (Preserves-unless _ _) (λ s4 v _ same. Yields-pure status (λ s5 asked.
              record {
                trusted = asked.trusted;
                answer = answer;
                answered = asked.answered;
                succeeded = unless-ok _ _ s1 u succeeded;
                payload = payload;
                decoded = decoded;
                status = status;
                parsed = parsed;
                same_machine = ground (
                  arith,
                  unless-ok _ _ s4 v same,
                  eq_iff status.machine.machine_id discovery.machine_id,
                );
              }))))),
  ))

connect-unsent :
    (expected : Option String) (allow : Bool) (handshake : Handshake) (c : Client)
    → ((connect expected allow handshake c).1.sent ≡ c.sent)
      × ((connect expected allow handshake c).1.outcomes ≡ c.outcomes)
unfolding connect note_fingerprint verify_fingerprint open_connection require_fingerprint close
    raise lift ◌>>=◌
connect-unsent expected allow no_library c = (refl, refl)
connect-unsent expected allow bad_key c = (refl, refl)
connect-unsent expected allow unreachable c = (refl, refl)
connect-unsent none allow (presents observed login) c = ground arith
connect-unsent (some key) allow (presents observed login) c = ground arith
connect-unsent expected allow (keyless login) c = ground arith

pub connect-Open :
    (library : Library) (fingerprint : String) (handshake : Handshake) (s : Session) (u : Unit {0})
    (start : Client)
    → s.final_client ≡ fresh_client start
    → (on_final (connect (some fingerprint) false handshake) s).0 ≡ ok u
    → Open library fingerprint
        (fresh_client start)
        (on_final (connect (some fingerprint) false handshake) s).1
unfolding on_final
connect-Open library fingerprint handshake s u start fresh e =
    let trust =
      connect-IsTrusted (some fingerprint) false handshake s.final_client
        (ap (λ c. c.fingerprint) fresh) e in
    let (sent, outcomes) = connect-unsent (some fingerprint) false handshake s.final_client in
    record {
      trusted = elim trust.approved [
        | inl same ↦ trust.noted ∙ sym same
        | inr (absent, _) ↦ absurd (cc)
      ];
      follows = record {
        log = [];
        sent = sent ∙ ap (λ c. c.sent) fresh;
        outcomes = outcomes ∙ ap (λ c. c.outcomes) fresh;
      };
    }
