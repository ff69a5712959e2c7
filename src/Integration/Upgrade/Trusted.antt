-- ===== src/Integration/Upgrade/Trusted.antt =====
-- The request that the integration signs is one that the helper accepts and installs.
use ha_pi_manager_integratio.Prelude.{
  ℕ, ◌≤◌, ◌*◌, String, ◌<>◌, code, ◌≡◌, Bool, true, false, refl, pos, ◌∷◌, Option, none, some, List,
  [], Result, ok, err, arith, ltb, length, all_chars, has_infix, eq_refl,
}
use ha_pi_manager_integratio.Prelude.Exec.{◌>>=◌}
use ha_pi_manager_integratio.Json.{Value, str, dict, Fields, get}
use ha_pi_manager_integratio.Agent.Names.{is_version}
use ha_pi_manager_integratio.Agent.World.{
  World, Failure, json, file_step, load_trust, read_file, next_read, read_json, on_os_error,
  replace_agent, replace_ctl, replace_sudoers, Outcome, completed, run, read_clock, ask,
}
use ha_pi_manager_integratio.Agent.Library.{Library, compiled}
use ha_pi_manager_integratio.Agent.Constants.{max_sudoers_bytes}
use ha_pi_manager_integratio.Agent.Sudoers.{
  policy_valid, validate_sudoers_policy, decode_sudoers_policy, activate_policy,
  install_sudoers_policy,
}
use ha_pi_manager_integratio.Agent.Trust.{compare_digest}
use ha_pi_manager_integratio.Agent.Upgrade.{
  Request, signed_message, decode_sources, replace_files, decode_policy, upgrade_helper,
}
use ha_pi_manager_integratio.Integration.Upgrade.{signature}

-- The helper answers and does not raise.
abbrev pub is_reported : Result Failure Value → Bool
is_reported (ok _) = true
is_reported (err _) = false

module _ (lib : Library) (b64encode : List ℕ → String)
    (b64decode-b64encode : (bytes : List ℕ) → lib.b64decode (b64encode bytes) ≡ some bytes)
    (hexdigest-ascii : (key message : List ℕ)
      → all_chars (λ c. ltb (code c) 128) (lib.hmac_sha256 key message) ≡ true) where
  abbrev pub signed_request : String → List ℕ → List ℕ → List ℕ → Request
  signed_request version secret agent ctl = record {
    version = version;
    agent = b64encode agent;
    ctl = b64encode ctl;
    signature = signature lib.hmac_sha256 lib.encode secret version agent ctl none;
    sudoers = none;
  }

  -- The request with the policy
  abbrev pub signed_policy_request : String → List ℕ → List ℕ → List ℕ → List ℕ → Request
  signed_policy_request version secret agent ctl policy = record {
    version = version;
    agent = b64encode agent;
    ctl = b64encode ctl;
    signature = signature lib.hmac_sha256 lib.encode secret version agent ctl (some policy);
    sudoers = some (b64encode policy);
  }

  signature-compare :
      (version : String) (secret agent ctl : List ℕ) (policy : Option (List ℕ))
      → compare_digest
          (lib.hmac_sha256 secret (signed_message (lib.encode version) agent ctl policy))
          (signature lib.hmac_sha256 lib.encode secret version agent ctl policy)
        ≡ ok true
  unfolding compare_digest signature
  signature-compare version secret agent ctl policy = ground (
    arith,
    eq_refl (lib.hmac_sha256 secret (signed_message (lib.encode version) agent ctl policy)),
    hexdigest-ascii secret (signed_message (lib.encode version) agent ctl policy),
  )

  module _ (version : String) (secret agent ctl : List ℕ) (agent_text ctl_text : String)
      (secret_length : length secret ≡ 32) (agent_size : length agent ≤ 512 * 1024)
      (ctl_size : length ctl ≤ 64 * 1024) (agent_decoded : lib.decode agent ≡ some agent_text)
      (ctl_decoded : lib.decode ctl ≡ some ctl_text)
      (states_version : has_infix ("AGENT_VERSION = \"" <> version <> "\"") agent_text ≡ true)
      (agent_compiles : lib.compile agent_text ≡ compiled)
      (ctl_compiles : lib.compile ctl_text ≡ compiled) where
    decode_sources-signed_request :
        (request : Request) (w : World)
        → request.version ≡ version
        → request.agent ≡ b64encode agent
        → request.ctl ≡ b64encode ctl
        → decode_sources lib request (b64encode secret) w
          ≡ (ok (record { secret = secret; agent = agent; ctl = ctl }), w)
    unfolding decode_sources ◌>>=◌
    decode_sources-signed_request request w v a c = ground (
      arith,
      v,
      a,
      c,
      b64decode-b64encode secret,
      b64decode-b64encode agent,
      b64decode-b64encode ctl,
    )

    replace_files-no_failure :
        (w : World)
        → w.events ≡ []
        → replace_files lib agent ctl w ≡ (ok tt, record w { agent_file = agent; ctl_file = ctl })
    unfolding replace_files ◌>>=◌ file_step replace_agent replace_ctl
    replace_files-no_failure w quiet = ground (arith, quiet)

    -- The helper installs both files of a request without a policy, as the integration sends it first,
    -- that is signed with the secret of the trust file, if the files are within the bounds, decode, state the version and compile, the
    -- version has three numbers, and no file operation and no reading of the trust file fails. It needs that base64 decodes what it
    -- encoded and that a hexadecimal digest is ASCII.
    pub upgrade_helper-signed_request :
        (trust : Fields) (w : World)
        → is_version version ≡ true
        → w.trust ≡ json (dict trust)
        → get "hmac_secret" trust ≡ str (b64encode secret)
        → w.events ≡ []
        → w.read_faults ≡ []
        → ((upgrade_helper lib (signed_request version secret agent ctl) w).1.agent_file ≡ agent)
          × ((upgrade_helper lib (signed_request version secret agent ctl) w).1.ctl_file ≡ ctl)
          × (is_reported (upgrade_helper lib (signed_request version secret agent ctl) w).0 ≡ true)
    unfolding upgrade_helper load_trust read_file read_json on_os_error ◌>>=◌
    upgrade_helper-signed_request trust w v t s q read = ground (
      arith,
      read,
      decode_sources-signed_request (signed_request version secret agent ctl) (next_read w) refl
          refl refl,
      replace_files-no_failure (next_read w) q,
      signature-compare version secret agent ctl none,
    )

    module _ (policy : List ℕ) (text : String) (policy_size : length policy ≤ max_sudoers_bytes)
        (policy_decoded : lib.decode policy ≡ some text)
        (policy_accepted : policy_valid lib text version ≡ true) where
      decode_policy-signed_request :
          decode_policy lib (signed_policy_request version secret agent ctl policy)
          ≡ ok (some (policy, text))
      unfolding decode_sudoers_policy
      decode_policy-signed_request = ground (arith, b64decode-b64encode policy)

      -- Where visudo accepts the policy and nothing fails, it is in place, and so are the other files.
      install_sudoers_policy-no_failure :
          (w : World) (output errors : String) (rest : List Outcome)
          → w.is_root ≡ true
          → w.outcomes ≡ completed (pos 0) output errors ∷ rest
          → w.events ≡ []
          → ((install_sudoers_policy lib text version w).0 ≡ ok tt)
            × ((install_sudoers_policy lib text version w).1.sudoers_file ≡ text)
            × ((install_sudoers_policy lib text version w).1.agent_file ≡ w.agent_file)
            × ((install_sudoers_policy lib text version w).1.ctl_file ≡ w.ctl_file)
      unfolding install_sudoers_policy activate_policy validate_sudoers_policy on_os_error ◌>>=◌
          file_step read_clock run ask replace_sudoers
      install_sudoers_policy-no_failure w output errors rest root o quiet =
          ground (arith, root, o, quiet)

      -- The helper installs both files and the policy of a request that the integration signed with
      -- the secret of the trust file, if the files are within the bounds, decode, state the version
      -- and compile, the policy is within its bound, decodes and passes the helper's check for the
      -- version, the version has three numbers, the helper runs as root, visudo ends with 0, and no
      -- file operation and no reading of the trust file fails. It needs that base64 decodes what it
      -- encoded and that a hexadecimal digest is ASCII.
      pub upgrade_helper-signed_policy_request :
          (trust : Fields) (w : World) (output errors : String) (rest : List Outcome)
          → is_version version ≡ true
          → w.trust ≡ json (dict trust)
          → get "hmac_secret" trust ≡ str (b64encode secret)
          → w.is_root ≡ true
          → w.outcomes ≡ completed (pos 0) output errors ∷ rest
          → w.events ≡ []
          → w.read_faults ≡ []
          → ((upgrade_helper lib
                (signed_policy_request version secret agent ctl policy)
                w).1.agent_file
              ≡ agent)
            × ((upgrade_helper lib
                  (signed_policy_request version secret agent ctl policy)
                  w).1.ctl_file
                ≡ ctl)
            × ((upgrade_helper lib
                  (signed_policy_request version secret agent ctl policy)
                  w).1.sudoers_file
                ≡ text)
            × (is_reported
                  (upgrade_helper lib (signed_policy_request version secret agent ctl policy) w).0
                ≡ true)
      unfolding upgrade_helper load_trust read_file read_json on_os_error ◌>>=◌
      upgrade_helper-signed_policy_request trust w output errors rest v t s root o q read = ground (
        arith,
        read,
        decode_sources-signed_request (signed_policy_request version secret agent ctl policy)
            (next_read w) refl refl refl,
        decode_policy-signed_request,
        signature-compare version secret agent ctl (some policy),
        replace_files-no_failure (next_read w) q,
        install_sudoers_policy-no_failure
            (record w { read_faults = []; agent_file = agent; ctl_file = ctl }) output errors rest
            root o q,
      )
