-- ===== src/Tests/SignedUpgrade.antt =====
-- A signed upgrade on the sample host.
use ha_pi_manager_integratio.Prelude.{
  ℕ, zero, suc, ◌+◌, String, code, ◌≡◌, refl, true, some, List, [], ◌∷◌, arith, all_chars, ltb,
  has_infix,
}
use ha_pi_manager_integratio.Agent.Names.{is_version, matches_username}
use ha_pi_manager_integratio.Agent.Upgrade.{Request, upgrade_helper}
use ha_pi_manager_integratio.Agent.Library.{Library}
use ha_pi_manager_integratio.Agent.Sudoers.{policy_valid, policy_line_valid}
use ha_pi_manager_integratio.Tests.Bootstrap.{sample_policy}
use ha_pi_manager_integratio.Prelude.{
  if◌then◌else◌, nat_eq, Option, strip, is_space, splitlines, is_line_end, split_commas, partition,
}
use ha_pi_manager_integratio.Integration.Upgrade.Trusted.{
  signed_request, signed_policy_request, is_reported, upgrade_helper-signed_request,
  upgrade_helper-signed_policy_request,
}
use ha_pi_manager_integratio.Tests.Samples.{
  unary, read_unary, cons_some, digest, sample_encode, sample_decode, sample_library, sample_secret,
  sample_trust, version_text, host,
}

read_unary-unary :
    (n m : ℕ) (s : String) → read_unary m (unary n s) ≡ cons_some (m + n) (read_unary 0 s)
read_unary-unary zero m s = ground arith
read_unary-unary (suc n) m s = ground (arith, read_unary-unary n (suc m) s)

sample_decode-sample_encode : (bytes : List ℕ) → sample_decode (sample_encode bytes) ≡ some bytes
sample_decode-sample_encode [] = refl
sample_decode-sample_encode (n ∷ ns) =
    ground (arith, read_unary-unary n 0 (sample_encode ns), sample_decode-sample_encode ns)

digest-ascii :
    (key message : List ℕ) → all_chars (λ c. ltb (code c) 128) (digest key message) ≡ true
digest-ascii key [] = refl
digest-ascii key (zero ∷ rest) = digest-ascii key rest
digest-ascii key (suc n ∷ rest) = digest-ascii key rest

upgrade_helper-signed_request_example :
    ((upgrade_helper sample_library
        (signed_request sample_library sample_encode sample_decode-sample_encode digest-ascii
          "0.2.5" sample_secret
          (7 ∷ [])
          (8 ∷ []))
        (host "")).1.agent_file
      ≡ 7 ∷ [])
    × ((upgrade_helper sample_library
          (signed_request sample_library sample_encode sample_decode-sample_encode digest-ascii
            "0.2.5" sample_secret
            (7 ∷ [])
            (8 ∷ []))
          (host "")).1.ctl_file
        ≡ 8 ∷ [])
    × (is_reported
          (upgrade_helper sample_library
            (signed_request sample_library sample_encode sample_decode-sample_encode digest-ascii
              "0.2.5" sample_secret
              (7 ∷ [])
              (8 ∷ []))
            (host "")).0
        ≡ true)
unfolding has_infix is_version
upgrade_helper-signed_request_example =
    upgrade_helper-signed_request sample_library sample_encode sample_decode-sample_encode
      digest-ascii "0.2.5" sample_secret (7 ∷ []) (8 ∷ []) version_text version_text refl
      (omega arith) (omega arith) refl refl refl refl refl sample_trust (host "") refl refl refl
      refl refl

-- A library under which the byte 9 is the policy
abbrev total : List ℕ → ℕ
total [] = 0
total (n ∷ ns) = n + total ns

abbrev decode_policy_byte : List ℕ → Option String
decode_policy_byte bytes = if nat_eq (total bytes) 9 then some sample_policy else some version_text

abbrev policy_library : Library
policy_library = record sample_library { decode = decode_policy_byte }

abbrev policy_request : Request
policy_request =
    signed_policy_request policy_library sample_encode sample_decode-sample_encode digest-ascii
      "0.2.5" sample_secret (7 ∷ []) (8 ∷ []) (9 ∷ [])

upgrade_helper-signed_policy_request_example :
    ((upgrade_helper policy_library policy_request (host "")).1.agent_file ≡ 7 ∷ [])
    × ((upgrade_helper policy_library policy_request (host "")).1.ctl_file ≡ 8 ∷ [])
    × ((upgrade_helper policy_library policy_request (host "")).1.sudoers_file ≡ sample_policy)
    × (is_reported (upgrade_helper policy_library policy_request (host "")).0 ≡ true)
unfolding has_infix is_version policy_valid policy_line_valid strip is_space splitlines is_line_end
    split_commas matches_username partition
upgrade_helper-signed_policy_request_example =
    upgrade_helper-signed_policy_request policy_library sample_encode sample_decode-sample_encode
      digest-ascii "0.2.5" sample_secret (7 ∷ []) (8 ∷ []) version_text version_text refl
      (omega arith) (omega arith) refl refl refl refl refl (9 ∷ []) sample_policy (omega arith) refl
      refl sample_trust (host "") "" "" [] refl refl refl refl refl refl refl
