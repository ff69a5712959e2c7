-- ===== src/Integration/Upgrade/Current.antt =====
-- What `async_upgrade_if_needed` returns, and how often it acts.
use ha_pi_manager_integratio.Prelude.{
  ℕ, ◌≡◌, ◌<◌, ◌≤◌, ◌⊎◌, eq_iff, refl, ap, Bool, true, false, not, ◌&&◌, ◌||◌, ok, err, arith,
  if◌then◌else◌,
}
use mathlib.Core.Path.{subst}
use ha_pi_manager_integratio.Prelude.Results.{value_or}
use ha_pi_manager_integratio.Prelude.Exec.{continue, ◌>>=◌, pure, unless}
use ha_pi_manager_integratio.Errors.{PyError, Exc}
use ha_pi_manager_integratio.Models.{HostStatus}
use ha_pi_manager_integratio.Integration.Sudoers.{helper_version}
use ha_pi_manager_integratio.Integration.Runtime.State.{Python, Runtime, Io}
use ha_pi_manager_integratio.Integration.Upgrade.{
  Version, version_tuple, version_less, Codec, Material, needs_helper, needs_policy, guarded,
  with_upgrade_error, upgrade_once, upgrade_unless_attempted, async_upgrade_if_needed,
}

-- The first version is the second or a later one: a greater first number, or the same and a greater
-- second one, or the same two and a third one that is not smaller.
abbrev pub IsNotOlder : Version → Version → Type 0
IsNotOlder (a, (b, c)) (d, (e, f)) = (d < a) ⊎ ((a ≡ d) × ((e < b) ⊎ ((b ≡ e) × (f ≤ c))))

IsNotOlder-numbers :
    (a b c d e f : ℕ)
    → version_less (a, (b, c)) (d, (e, f)) ≡ false
    → IsNotOlder (a, (b, c)) (d, (e, f))
unfolding version_less
IsNotOlder-numbers a b c d e f h = ground arith

version_less-IsNotOlder : (v w : Version) → version_less v w ≡ false → IsNotOlder v w
version_less-IsNotOlder (a, (b, c)) (d, (e, f)) h = IsNotOlder-numbers a b c d e f h

-- The version of the helper is not older than the integration's, and its policy is of that version.
pub record IsCurrent (status : HostStatus) : Type 0 where
  pub helper_current :
      IsNotOlder (version_tuple status.agent_version) (version_tuple helper_version)
  pub policy_current : status.policy_version ≡ helper_version

IsCurrent-needs :
    (status : HostStatus)
    → needs_helper status ≡ false
    → needs_policy status ≡ false
    → IsCurrent status
IsCurrent-needs status a b = record {
  helper_current =
      version_less-IsNotOlder (version_tuple status.agent_version) (version_tuple helper_version) a;
  policy_current = ground (arith, b, eq_iff status.policy_version helper_version);
}

-- What `m` returns, if it does, is current.
record Returns (m : Io HostStatus) : Type 0 where
  at : (r : Runtime) (s : HostStatus) → (m r).0 ≡ ok s → IsCurrent s

module _ {A : Type 0} where
  continue-Returns :
      (a : Exc A) (f : A → Io HostStatus)
      → ((x : A) → Returns (f x))
      → (r : Runtime) (s : HostStatus) → (continue a f r).0 ≡ ok s
      → IsCurrent s
  continue-Returns (ok x) f h r s e = (h x).at r s e
  continue-Returns (err x) f h r s e = absurd (cc)

  Returns-bind : (m : Io A) (f : A → Io HostStatus) → ((x : A) → Returns (f x)) → Returns (m >>= f)
  unfolding ◌>>=◌
  Returns-bind m f h = record { at = λ r s e. continue-Returns (m r).0 f h (m r).1 s e }

pure-Returns : (status : HostStatus) → IsCurrent status → Returns (pure status)
unfolding pure
pure-Returns status c = record { at = λ r s e. subst IsCurrent (ap (value_or status) e) c }

if-Returns :
    (b : Bool) (m n : Io HostStatus)
    → (b ≡ true → Returns m)
    → (b ≡ false → Returns n)
    → Returns (if b then m else n)
if-Returns true m n first second = first refl
if-Returns false m n first second = second refl

unless-Returns :
    (b : Bool) (error : PyError) (status : HostStatus)
    → (b ≡ true → IsCurrent status)
    → Returns (unless b error >>= λ _. pure status)
unfolding ◌>>=◌
unless-Returns true error status c = record {
  at = λ r s e. (pure-Returns status (c refl)).at r s e;
}
unless-Returns false error status c = record { at = λ r s e. absurd (cc) }

neither : (a b : Bool) → not (a || b) ≡ true → (a ≡ false) × (b ≡ false)
neither a b h = ground arith

neither-IsCurrent :
    (status : HostStatus)
    → not (needs_helper status || needs_policy status) ≡ true
    → IsCurrent status
neither-IsCurrent status h =
    let (a, b) = neither (needs_helper status) (needs_policy status) h in IsCurrent-needs status a b

both : (a b : Bool) → (not a && not b) ≡ true → (a ≡ false) × (b ≡ false)
both a b h = ground arith

guarded-ok : (a : Exc HostStatus) (s : HostStatus) → with_upgrade_error a ≡ ok s → a ≡ ok s
guarded-ok (ok a) s e = e
guarded-ok (err x) s e = absurd (cc)

guarded-Returns : (m : Io HostStatus) → Returns m → Returns (guarded m)
unfolding guarded
guarded-Returns m h = record { at = λ r s e. h.at r s (guarded-ok (m r).0 s e) }

module _ (py : Python) (codec : Codec) (material : Exc Material) where
  upgrade_once-Returns : (status : HostStatus) → Returns (upgrade_once py codec material status)
  unfolding upgrade_once
  upgrade_once-Returns status = Returns-bind _ _ λ m. Returns-bind _ _ λ _. Returns-bind _ _ λ _.
      Returns-bind _ _ λ _.
        Returns-bind _ _ λ refreshed. unless-Returns _ _ refreshed (neither-IsCurrent refreshed)

  upgrade_unless_attempted-Returns :
      (status : HostStatus) → Returns (upgrade_unless_attempted py codec material status)
  unfolding upgrade_unless_attempted
  upgrade_unless_attempted-Returns status = Returns-bind _ _ λ _.
      Returns-bind _ _ λ _. Returns-bind _ _ λ _. guarded-Returns _ (upgrade_once-Returns status)

-- A status that `async_upgrade_if_needed` returns is current: by its three numbers the version of the
-- helper is not older than the integration's, and the version of the policy is the integration's.
pub async_upgrade_if_needed-IsCurrent :
    (py : Python) (codec : Codec) (material : Exc Material) (status current : HostStatus)
    (r : Runtime)
    → (async_upgrade_if_needed py codec material status r).0 ≡ ok current
    → IsCurrent current
unfolding async_upgrade_if_needed
async_upgrade_if_needed-IsCurrent py codec material status current r e =
    (if-Returns (not (needs_helper status) && not (needs_policy status)) _ _
        (λ c.
          let (a, b) = both (needs_helper status) (needs_policy status) c in
          pure-Returns status (IsCurrent-needs status a b))
        (λ _. upgrade_unless_attempted-Returns py codec material status)).at
      r current e
