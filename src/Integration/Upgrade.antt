-- ===== src/Integration/Upgrade.antt =====
-- custom_components/pi_manager/upgrade.py: the signed upgrade of the helper, from the integration.
pub mod Trusted
pub mod Current
pub mod Once
use ha_pi_manager_integratio.Prelude.{
  ℕ, ◌≤◌, String, ◌==◌, ε, ◌▹◌, Bool, true, false, not, ◌&&◌, ◌||◌, Option, none, some, List, [],
  ◌∷◌, Result, ok, err, ltb, nat_eq, length, decimal, partition, if◌then◌else◌,
}
use ha_pi_manager_integratio.Prelude.Exec.{Exec, ◌>>=◌, ◌>>◌, pure, raise, lift, gets, unless}
use ha_pi_manager_integratio.Errors.{
  PyError, Exc, helper_incompatible, value_error, is_os_or_value_or_pi_manager_error,
}
use ha_pi_manager_integratio.Models.{HostStatus, CommandResult}
use ha_pi_manager_integratio.Agent.Names.{is_version}
use ha_pi_manager_integratio.Agent.Upgrade.{signed_message}
use ha_pi_manager_integratio.Integration.Sudoers.{helper_version}
use ha_pi_manager_integratio.Integration.Runtime.State.{Python, Runtime, Io, run_helper}
use ha_pi_manager_integratio.Integration.Runtime.Operations.{async_status}

-- A version as `_version_tuple` gives it
abbrev pub Version : Type 0
Version = ℕ × (ℕ × ℕ)

abbrev number_or_zero : Option ℕ → ℕ
number_or_zero none = 0
number_or_zero (some n) = n

abbrev last_two : String → ℕ × ℕ
last_two text = elim (partition "." text) [
  | none ↦ (0, 0)
  | some (minor, patch) ↦ (number_or_zero (decimal minor), number_or_zero (decimal patch))
]

-- `_version_tuple`: (0, 0, 0) if the text is no version
unfoldable pub version_tuple : String → Version
version_tuple text =
    if is_version text
    then elim (partition "." text) [
      | none ↦ (0, (0, 0))
      | some (major, rest) ↦ (number_or_zero (decimal major), last_two rest)
    ]
    else (0, (0, 0))

-- `<` of two tuples
unfoldable pub version_less : Version → Version → Bool
version_less (a, (b, c)) (d, (e, f)) =
    ltb a d || (nat_eq a d && (ltb b e || (nat_eq b e && ltb c f)))

-- `_signature`, over HMAC-SHA256 and the version in UTF-8
unfoldable pub signature :
    (List ℕ → List ℕ → String)
    → (String → List ℕ)
    → List ℕ
    → String
    → List ℕ
    → List ℕ
    → Option (List ℕ)
    → String
signature hmac encode secret version agent ctl sudoers =
    hmac secret (signed_message (encode version) agent ctl sudoers)

-- What is read before the helper is called: the secret, the bundled sources and the rendered policy,
-- in base64 behind their bytes.
pub record Material : Type 0 where
  pub secret : List ℕ
  pub agent : List ℕ
  pub ctl : List ℕ
  pub sudoers : List ℕ

-- The functions of the standard library that the upgrade calls
pub record Codec : Type 0 where
  pub hmac_sha256 : List ℕ → List ℕ → String
  pub encode : String → List ℕ
  pub b64encode : List ℕ → String

module _ (codec : Codec) where
  abbrev signed : Material → Option (List ℕ) → String
  signed m = signature codec.hmac_sha256 codec.encode m.secret helper_version m.agent m.ctl

  -- The two requests, without and with the policy
  unfoldable pub helper_arguments : Material → List String
  unfolding signature
  helper_arguments m =
      "upgrade-helper"
      ∷ "--json"
      ∷ "--version"
      ∷ helper_version
      ∷ "--agent"
      ∷ codec.b64encode m.agent
      ∷ "--ctl"
      ∷ codec.b64encode m.ctl
      ∷ "--signature"
      ∷ signed m none
      ∷ []

  unfoldable pub policy_arguments : Material → List String
  unfolding signature
  policy_arguments m =
      "upgrade-helper"
      ∷ "--json"
      ∷ "--version"
      ∷ helper_version
      ∷ "--agent"
      ∷ codec.b64encode m.agent
      ∷ "--ctl"
      ∷ codec.b64encode m.ctl
      ∷ "--signature"
      ∷ signed m (some m.sudoers)
      ∷ "--sudoers"
      ∷ codec.b64encode m.sudoers
      ∷ []

abbrev pub needs_helper : HostStatus → Bool
needs_helper status =
    version_less (version_tuple status.agent_version) (version_tuple helper_version)

abbrev pub needs_policy : HostStatus → Bool
needs_policy status = not (status.policy_version == helper_version)

unfoldable pub note_upgrade : Io (Unit {0})
note_upgrade r = (ok tt, record r { helper_upgrade_attempted = true })

-- The `except` clauses: an incompatible helper stays one, and so becomes every other known error.
unfoldable pub upgrade_error : PyError → PyError
upgrade_error (helper_incompatible text) = helper_incompatible text
upgrade_error e =
    if is_os_or_value_or_pi_manager_error e
    then helper_incompatible "The helper upgrade trust material is invalid"
    else e

abbrev pub with_upgrade_error : {A : Type 0} → Exc A → Exc A
with_upgrade_error (ok a) = ok a
with_upgrade_error (err e) = err (upgrade_error e)

unfoldable pub guarded : {A : Type 0} → Io A → Io A
unfolding upgrade_error
guarded m r = let (a, r') = m r in (with_upgrade_error a, r')

module _ (py : Python) (codec : Codec) where
  unfoldable pub send_helper : Bool → Material → Io (Unit {0})
  send_helper needed m =
      let send : Io (Unit {0}) = (do _ ← run_helper py (helper_arguments codec m); pure tt) in
      if needed then send else pure tt

  -- The body of the `try`; `material` is the outcome of reading the key store and the bundled files.
  unfoldable pub upgrade_once : Exc Material → HostStatus → Io HostStatus
  unfolding send_helper version_tuple version_less
  upgrade_once material status = do
    m ← lift material
    unless (nat_eq (length m.secret) 32) (value_error "upgrade trust secret has an invalid length")
    send_helper (needs_helper status) m
    _ ← run_helper py (policy_arguments codec m)
    refreshed ← async_status py
    unless (not (needs_helper refreshed || needs_policy refreshed))
        (helper_incompatible "The helper did not report the upgraded policy")
    pure refreshed

  unfoldable pub upgrade_unless_attempted : Exc Material → HostStatus → Io HostStatus
  unfolding upgrade_once note_upgrade guarded
  upgrade_unless_attempted material status = do
    attempted ← gets (λ r. r.helper_upgrade_attempted)
    unless (not attempted)
        (helper_incompatible "The helper policy migration has already been attempted")
    note_upgrade
    guarded (upgrade_once material status)

  unfoldable pub async_upgrade_if_needed : Exc Material → HostStatus → Io HostStatus
  unfolding upgrade_unless_attempted
  async_upgrade_if_needed material status =
      if not (needs_helper status) && not (needs_policy status)
      then pure status
      else upgrade_unless_attempted material status
