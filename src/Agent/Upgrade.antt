-- ===== src/Agent/Upgrade.antt =====
-- `_upgrade_helper`: a signed replacement of the helper and of its sudo policy.
use ha_pi_manager_integratio.Prelude.{
  ℕ, String, ◌<>◌, true, ◌&&◌, Option, none, some, List, ◌∷◌, ◌++◌, ◌*◌, Result, ok, err, nat_eq,
  leb, length, has_infix,
}
use ha_pi_manager_integratio.Prelude.Exec.{◌>>=◌, ◌>>◌, pure, raise, lift, unless}
use ha_pi_manager_integratio.Json.{Value, bool, str, dict, Fields, end, field, get}
use ha_pi_manager_integratio.Agent.Names.{is_version}
use ha_pi_manager_integratio.Agent.World.{
  Agent, Failure, agent_error, value_error, file_step, load_trust, on_os_error, replace_agent,
  replace_ctl,
}
use ha_pi_manager_integratio.Agent.Library.{Library, Compiled, compiled, syntax_error, null_byte}
use ha_pi_manager_integratio.Agent.Trust.{compare_digest}
use ha_pi_manager_integratio.Agent.Sudoers.{decode_sudoers_policy, install_sudoers_policy}

-- The arguments of `upgrade-helper`
pub record Request : Type 0 where
  pub version : String
  pub agent : String
  pub ctl : String
  pub signature : String
  pub sudoers : Option String

-- `version + b"\0" + agent + b"\0" + ctl`, and the policy behind a further zero byte
unfoldable pub signed_message : List ℕ → List ℕ → List ℕ → Option (List ℕ) → List ℕ
signed_message version agent ctl none = version ++ (0 ∷ (agent ++ (0 ∷ ctl)))
signed_message version agent ctl (some policy) =
    version ++ (0 ∷ (agent ++ (0 ∷ (ctl ++ (0 ∷ policy)))))

abbrev pub secret_text : Value → Option String
secret_text (str secret) = some secret
secret_text _ = none

-- What the checks before the signature leave: the secret and the decoded sources.
pub record Sources : Type 0 where
  pub secret : List ℕ
  pub agent : List ℕ
  pub ctl : List ℕ

module _ (lib : Library) where
  abbrev decoded : String → Result Failure (List ℕ)
  decoded text = elim (lib.b64decode text) [
    | none ↦ err (agent_error "helper_upgrade_invalid")
    | some raw ↦ ok raw
  ]

  abbrev text_of : List ℕ → Result Failure String
  text_of source = elim (lib.decode source) [
    | none ↦ err (agent_error "helper_upgrade_invalid")
    | some text ↦ ok text
  ]

  abbrev compiles : Compiled → Result Failure (Unit {0})
  compiles compiled = ok tt
  compiles syntax_error = err (agent_error "helper_upgrade_invalid")
  compiles null_byte = err value_error

  unfoldable pub decode_sources : Request → String → Agent Sources
  decode_sources request encoded_secret = do
    secret ← lift (decoded encoded_secret)
    agent ← lift (decoded request.agent)
    ctl ← lift (decoded request.ctl)
    unless
        (nat_eq (length secret) 32
          && leb (length agent) (512 * 1024)
          && leb (length ctl) (64 * 1024))
        (agent_error "helper_upgrade_invalid")
    agent_text ← lift (text_of agent)
    ctl_text ← lift (text_of ctl)
    unless (has_infix ("AGENT_VERSION = \"" <> request.version <> "\"") agent_text)
        (agent_error "helper_upgrade_invalid")
    lift (compiles (lib.compile agent_text))
    lift (compiles (lib.compile ctl_text))
    pure (record { secret = secret; agent = agent; ctl = ctl })

  abbrev pub decode_policy : Request → Result Failure (Option (List ℕ × String))
  decode_policy request = elim request.sudoers [
    | none ↦ ok none
    | some encoded ↦ elim (decode_sudoers_policy lib encoded request.version) [
      | err e ↦ err e
      | ok policy ↦ ok (some policy)
    ]
  ]

  abbrev pub policy_bytes : Option (List ℕ × String) → Option (List ℕ)
  policy_bytes none = none
  policy_bytes (some (source, _)) = some source

  -- The temporary files with their modes, then one `os.replace` after the other.
  unfoldable pub replace_files : List ℕ → List ℕ → Agent Unit
  replace_files agent ctl = do file_step; file_step; replace_agent agent; file_step; replace_ctl ctl

  abbrev pub install_policy : Request → Option (List ℕ × String) → Agent Unit
  install_policy request none = pure tt
  install_policy request (some (_, text)) = install_sudoers_policy lib text request.version

  abbrev policy_field : Request → Option (List ℕ × String) → Fields
  policy_field request none = end
  policy_field request (some _) = field "policy_version" (str request.version) end

  abbrev pub authorised_sources : Request → Option String → Agent Sources
  authorised_sources request none = raise (agent_error "helper_upgrade_not_trusted")
  authorised_sources request (some secret) = decode_sources request secret

  unfoldable pub upgrade_helper : Request → Agent Value
  upgrade_helper request = do
    unless (is_version request.version) (agent_error "helper_version_invalid")
    trust ← load_trust end
    sources ← authorised_sources request (secret_text (get "hmac_secret" trust))
    policy ← lift (decode_policy request)
    let message =
        signed_message (lib.encode request.version) sources.agent sources.ctl (policy_bytes policy)
    genuine ← lift (compare_digest (lib.hmac_sha256 sources.secret message) request.signature)
    unless genuine (agent_error "helper_upgrade_signature_invalid")
    on_os_error "helper_upgrade_write_failed" (replace_files sources.agent sources.ctl)
    install_policy request policy
    pure (
        dict (
          field "upgraded" (bool true) (
            field "agent_version" (str request.version) (
              field "agent_sha256" (str (lib.sha256 sources.agent))
                (policy_field request policy)))))
