-- ===== src/Agent/Trust.antt =====
-- `_configure_trust`: the secret that signs upgrades is installed once.
use ha_pi_manager_integratio.Prelude.{
  ℕ, String, ◌==◌, Char, code, Bool, true, false, ◌&&◌, Option, none, some, List, Result, ok, err,
  pos, nat_eq, ltb, length, all_chars, if◌then◌else◌,
}
use ha_pi_manager_integratio.Prelude.Exec.{◌>>=◌, ◌>>◌, pure, lift, unless}
use ha_pi_manager_integratio.Json.{Value, bool, int, str, dict, Fields, end, field, get}
use ha_pi_manager_integratio.Agent.Constants.{agent_schema_version}
use ha_pi_manager_integratio.Agent.World.{
  Agent, Failure, agent_error, type_error, file_step, load_trust, write_trust,
}
use ha_pi_manager_integratio.Agent.Library.{Library}

-- `hmac.compare_digest` of two `str`: other than ASCII is a `TypeError`.
unfoldable pub compare_digest : String → String → Result Failure Bool
compare_digest a b =
    let ascii : Char → Bool = λ c. ltb (code c) 128 in
    if all_chars ascii a && all_chars ascii b then ok (a == b) else err type_error

abbrev is_secret : Option (List ℕ) → Bool
is_secret none = false
is_secret (some secret) = nat_eq (length secret) 32

abbrev trust_record : String → Fields
trust_record secret =
    field "schema_version" (int (pos agent_schema_version)) (field "hmac_secret" (str secret) end)

-- The rest of `_configure_trust`, by the secret of the trust file
unfoldable pub install_secret : String → Value → Agent Value
install_secret secret (str existing) = do
  same ← lift (compare_digest existing secret)
  unless same (agent_error "trust_already_configured")
  pure (dict (field "configured" (bool true) (field "unchanged" (bool true) end)))
install_secret secret _ = do
  write_trust (trust_record secret)
  file_step
  pure (dict (field "configured" (bool true) end))

unfoldable pub configure_trust : Library → String → Agent Value
unfolding install_secret
configure_trust lib secret = do
  unless (is_secret (lib.b64decode secret)) (agent_error "trust_config_invalid")
  existing ← load_trust end
  install_secret secret (get "hmac_secret" existing)
