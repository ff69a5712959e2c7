-- ===== src/Tests/Upgrades.antt =====
-- The theorems on upgrades, from the integration.
use ha_pi_manager_integratio.Prelude.{
  ◌≡◌, refl, ◌⊎◌, [], ◌∷◌, ok, partition, decimal, decimal_value, is_decimal,
}
use ha_pi_manager_integratio.Prelude.Exec.{pure}
use ha_pi_manager_integratio.Errors.{Exc}
use ha_pi_manager_integratio.Models.{HostStatus}
use ha_pi_manager_integratio.Agent.Names.{is_version}
use ha_pi_manager_integratio.Integration.Upgrade.{
  Codec, Material, async_upgrade_if_needed, version_tuple, version_less,
}
use ha_pi_manager_integratio.Integration.Upgrade.Current.{
  IsCurrent, async_upgrade_if_needed-IsCurrent,
}
use ha_pi_manager_integratio.Integration.Upgrade.Once.{async_upgrade_if_needed-once}
use ha_pi_manager_integratio.Tests.Document.{sample_status}
use ha_pi_manager_integratio.Tests.Samples.{
  digest, sample_encode, sample_secret, sample_python, sample_runtime,
}

abbrev pub sample_codec : Codec
sample_codec = record { hmac_sha256 = digest; encode = λ text. 1 ∷ []; b64encode = sample_encode }

abbrev pub sample_material : Exc Material
sample_material =
    ok (record { secret = sample_secret; agent = 7 ∷ []; ctl = 8 ∷ []; sudoers = 9 ∷ [] })

abbrev current_status : HostStatus
current_status = record sample_status { policy_version = "0.2.5" }

async_upgrade_if_needed-IsCurrent_example : IsCurrent current_status
unfolding async_upgrade_if_needed version_tuple version_less is_version is_decimal decimal_value
    decimal partition pure
async_upgrade_if_needed-IsCurrent_example =
    async_upgrade_if_needed-IsCurrent sample_python sample_codec sample_material current_status
      current_status sample_runtime refl

async_upgrade_if_needed-once_example :
    ((async_upgrade_if_needed sample_python sample_codec sample_material sample_status
        sample_runtime).1
      ≡ sample_runtime)
    ⊎ ((async_upgrade_if_needed sample_python sample_codec sample_material sample_status
          (async_upgrade_if_needed sample_python sample_codec sample_material sample_status
            sample_runtime).1).1
        ≡ (async_upgrade_if_needed sample_python sample_codec sample_material sample_status
            sample_runtime).1)
async_upgrade_if_needed-once_example =
    async_upgrade_if_needed-once sample_python sample_codec sample_material sample_material
      sample_status sample_status sample_runtime
