-- ===== src/Integration/Ssh/Trust.antt =====
-- Whom a client talks to, and what it sends.
use ha_pi_manager_integratio.Prelude.{
  String, ◌≡◌, refl, ◌⊎◌, inl, inr, Bool, true, false, Option, none, some, List, [], ◌∷◌, ◌++◌, ok,
  arith, eq_iff,
}
use ha_pi_manager_integratio.Prelude.Exec.{◌>>=◌, raise, unless}
use ha_pi_manager_integratio.Models.{CommandResult}
use ha_pi_manager_integratio.Integration.Ssh.Words.{join, shell_words}
use ha_pi_manager_integratio.Integration.Ssh.Joined.{shell_words-join}
use ha_pi_manager_integratio.Integration.Ssh.Client.{
  Client, Handshake, no_library, bad_key, unreachable, presents, keyless, Utf8, verify_fingerprint,
  note_fingerprint, open_connection, require_fingerprint, connect, is_empty_command, send, run,
}

-- The key that the host presented is the expected one, or there is none yet and a first one may be
-- trusted.
pub record IsTrusted (expected : Option String) (allow_first_trust : Bool) (c : Client)
    : Type 0 where
  pub connected : c.connected ≡ true
  pub observed : String
  pub noted : c.fingerprint ≡ some observed
  pub approved : (expected ≡ some observed) ⊎ ((expected ≡ none) × (allow_first_trust ≡ true))

-- Whatever the library does, a connection of a new client that succeeds is to a host whose key is the
-- expected one, or is the first key where that may be trusted.
pub connect-IsTrusted :
    (expected : Option String) (allow_first_trust : Bool) (handshake : Handshake) (c : Client)
    → c.fingerprint ≡ none
    → (connect expected allow_first_trust handshake c).0 ≡ ok tt
    → IsTrusted expected allow_first_trust (connect expected allow_first_trust handshake c).1
unfolding connect raise ◌>>=◌ note_fingerprint verify_fingerprint open_connection
    require_fingerprint
connect-IsTrusted expected allow no_library c f e = absurd (ground arith)
connect-IsTrusted expected allow bad_key c f e = absurd (ground arith)
connect-IsTrusted expected allow unreachable c f e = absurd (ground arith)
connect-IsTrusted expected allow (keyless login) c f e = absurd (ground arith)
connect-IsTrusted none allow (presents observed login) c f e = record {
  connected = ground arith;
  observed = observed;
  noted = ground arith;
  approved = inr (refl, ground arith);
}
connect-IsTrusted (some expected) allow (presents observed login) c f e = record {
  connected = ground arith;
  observed = observed;
  noted = ground arith;
  approved = inl (ground (arith, eq_iff observed expected));
}

-- One line behind the others, which a shell reads as the arguments
pub record WasSent (args : List String) (input : Option String) (before after : Client)
    : Type 0 where
  pub line : String
  pub appended : after.sent ≡ before.sent ++ ((line, input) ∷ [])
  pub words : shell_words line ≡ some args
  pub not_empty : is_empty_command args ≡ false

-- A command that returns was sent as one line behind the others, and a shell reads that line as
-- exactly the arguments, none of which is empty.
pub run-WasSent :
    (utf8 : Utf8) (args : List String) (input : Option String) (c : Client) (result : CommandResult)
    → (run utf8 args input c).0 ≡ ok result
    → WasSent args input c (run utf8 args input c).1
unfolding run ◌>>=◌ unless raise send
run-WasSent utf8 args input c result e = record {
  line = join args;
  appended = ground arith;
  words = shell_words-join args;
  not_empty = ground arith;
}
