-- ===== src/Integration/Upgrade/Once.antt =====
-- An upgrade is attempted once in the life of a runtime.
use ha_pi_manager_integratio.Prelude.{
  String, ◌≡◌, refl, Bool, true, false, not, ◌&&◌, ◌⊎◌, inl, inr, List, ok, err, arith, Bool-cases,
  if◌then◌else◌,
}
use mathlib.Core.Path.{subst}
use ha_pi_manager_integratio.Prelude.Exec.{continue, ◌>>=◌, pure, raise, lift, gets, unless}
use ha_pi_manager_integratio.Errors.{PyError, Exc}
use ha_pi_manager_integratio.Models.{HostStatus}
use ha_pi_manager_integratio.Integration.Runtime.State.{
  Python, Runtime, Io, ensure_connected, exchange, run_sudo_nopass, drop_client_on, run_helper,
}
use ha_pi_manager_integratio.Integration.Runtime.Operations.{query, async_status}
use ha_pi_manager_integratio.Integration.Upgrade.{
  Codec, Material, needs_helper, needs_policy, note_upgrade, guarded, send_helper, upgrade_once,
  upgrade_unless_attempted, async_upgrade_if_needed,
}

-- The attempt has been noted.
record IsNoted (r : Runtime) : Type 0 where
  noted : r.helper_upgrade_attempted ≡ true

record Notes {A : Type 0} (m : Io A) : Type 0 where
  after : (r : Runtime) → IsNoted r → IsNoted (m r).1

unless-Notes : (b : Bool) (error : PyError) → Notes (unless b error)
unfolding unless
unless-Notes true error = record { after = λ r n. n }
unless-Notes false error = record { after = λ r n. n }

module _ {A : Type 0} where
  lift-Notes : (result : Exc A) → Notes (lift result)
  unfolding lift
  lift-Notes result = record { after = λ r n. n }

  gets-Notes : (read : Runtime → A) → Notes (gets read)
  unfolding gets
  gets-Notes read = record { after = λ r n. n }

  raise-Notes : (error : PyError) → Notes {A = A} (raise error)
  unfolding raise
  raise-Notes error = record { after = λ r n. n }

  pure-Notes : (a : A) → Notes (pure a)
  unfolding pure
  pure-Notes a = record { after = λ r n. n }

  if-Notes : (b : Bool) (m n : Io A) → Notes m → Notes n → Notes (if b then m else n)
  if-Notes true m n first second = first
  if-Notes false m n first second = second

module _ {A B : Type 0} where
  continue-Notes :
      (result : Exc A) (f : A → Io B)
      → ((a : A) → Notes (f a))
      → (r : Runtime) → IsNoted r
      → IsNoted (continue result f r).1
  continue-Notes (ok a) f next r n = (next a).after r n
  continue-Notes (err e) f next r n = n

  bind-Notes : (m : Io A) (f : A → Io B) → Notes m → ((a : A) → Notes (f a)) → Notes (m >>= f)
  unfolding ◌>>=◌
  bind-Notes m f first next = record {
    after = λ r n. continue-Notes (m r).0 f next (m r).1 (first.after r n);
  }

pure-same : (status : HostStatus) (r : Runtime) → (pure {E = PyError} status r).1 ≡ r
unfolding pure
pure-same status r = refl

-- What holds of the state after either branch holds after the test.
if-property :
    (P : Runtime → Type 0) (b : Bool) (m n : Io HostStatus) (r : Runtime)
    → P (m r).1
    → P (n r).1
    → P ((if b then m else n) r).1
if-property P true m n r first second = first
if-property P false m n r first second = second

ensure_connected-Notes : Notes ensure_connected
unfolding ensure_connected
ensure_connected-Notes = record { after = λ r n. record { noted = ground (arith, n.noted) } }

exchange-Notes : (args : List String) → Notes (exchange args)
unfolding exchange run_sudo_nopass drop_client_on
exchange-Notes args = record { after = λ r n. record { noted = ground (arith, n.noted) } }

ruleset notes_rules = (
  unless-Notes, lift-Notes, gets-Notes, raise-Notes, pure-Notes, if-Notes, bind-Notes,
  ensure_connected-Notes, exchange-Notes,
)

module _ (py : Python) where
  run_helper-Notes : (args : List String) → Notes (run_helper py args)
  unfolding run_helper
  run_helper-Notes args = search notes_rules depth 16

  async_status-Notes : Notes (async_status py)
  unfolding async_status query
  async_status-Notes = search (notes_rules, run_helper-Notes) depth 24

  module _ (codec : Codec) where
    send_helper-Notes : (needed : Bool) (m : Material) → Notes (send_helper py codec needed m)
    unfolding send_helper
    send_helper-Notes needed m = search (notes_rules, run_helper-Notes) depth 16

    upgrade_once-Notes :
        (material : Exc Material) (status : HostStatus)
        → Notes (upgrade_once py codec material status)
    unfolding upgrade_once
    upgrade_once-Notes material status =
        search (notes_rules, run_helper-Notes, async_status-Notes, send_helper-Notes) depth 24

    guarded-Notes : (m : Io HostStatus) → Notes m → Notes (guarded m)
    unfolding guarded
    guarded-Notes m first = record { after = λ r n. first.after r n }

    noted-stops :
        (material : Exc Material) (status : HostStatus) (r : Runtime)
        → r.helper_upgrade_attempted ≡ true
        → (upgrade_unless_attempted py codec material status r).1 ≡ r
    unfolding upgrade_unless_attempted ◌>>=◌
    noted-stops material status r n = rw n refl

    fresh-runs :
        (material : Exc Material) (status : HostStatus) (r : Runtime)
        → r.helper_upgrade_attempted ≡ false
        → (guarded
            (upgrade_once py codec material status)
            (record r { helper_upgrade_attempted = true })).1
          ≡ (upgrade_unless_attempted py codec material status r).1
    unfolding upgrade_unless_attempted ◌>>=◌ note_upgrade
    fresh-runs material status r n = rw n refl

    attempt-IsNoted :
        (material : Exc Material) (status : HostStatus) (r : Runtime)
        → ((upgrade_unless_attempted py codec material status r).1 ≡ r)
          ⊎ IsNoted (upgrade_unless_attempted py codec material status r).1
    attempt-IsNoted material status r = elim (Bool-cases r.helper_upgrade_attempted) [
      | inl n ↦ inl (noted-stops material status r n)
      | inr n ↦ inr (
          subst IsNoted (fresh-runs material status r n) (
            (guarded-Notes _ (upgrade_once-Notes material status)).after
              (record r { helper_upgrade_attempted = true }) (record { noted = refl })))
    ]

    -- Once noted, another call changes nothing.
    noted-same :
        (material : Exc Material) (status : HostStatus) (r : Runtime)
        → IsNoted r
        → (async_upgrade_if_needed py codec material status r).1 ≡ r
    unfolding async_upgrade_if_needed
    noted-same material status r n =
        if-property (λ v. v ≡ r) (not (needs_helper status) && not (needs_policy status)) _ _ r
          (pure-same status r) (noted-stops material status r n.noted)

    first-IsNoted :
        (material : Exc Material) (status : HostStatus) (r : Runtime)
        → ((async_upgrade_if_needed py codec material status r).1 ≡ r)
          ⊎ IsNoted (async_upgrade_if_needed py codec material status r).1
    unfolding async_upgrade_if_needed
    first-IsNoted material status r =
        if-property (λ v. (v ≡ r) ⊎ IsNoted v)
          (not (needs_helper status) && not (needs_policy status)) _ _ r (inl (pure-same status r))
          (attempt-IsNoted material status r)

-- Of two calls in a row at most one does anything: the first leaves the runtime as it was, or the
-- second does, whatever their material, the statuses and the answers of the host.
pub async_upgrade_if_needed-once :
    (py : Python) (codec : Codec) (material later_material : Exc Material)
    (status later : HostStatus) (r : Runtime)
    → ((async_upgrade_if_needed py codec material status r).1 ≡ r)
      ⊎ ((async_upgrade_if_needed py codec later_material later
            (async_upgrade_if_needed py codec material status r).1).1
          ≡ (async_upgrade_if_needed py codec material status r).1)
async_upgrade_if_needed-once py codec material later_material status later r =
    elim (first-IsNoted py codec material status r) [
      | inl same ↦ inl same
      | inr n ↦ inr (noted-same py codec later_material later _ n)
    ]
