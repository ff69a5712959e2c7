-- ===== src/Tests/Keys.antt =====
-- The key store at concrete inputs.
use ha_pi_manager_integratio.Prelude.{
  String, ◌≡◌, refl, none, some, [], ◌∷◌, ok, strip, lstrip, rstrip, is_space,
}
use ha_pi_manager_integratio.Prelude.Exec.{◌>>=◌}
use ha_pi_manager_integratio.Models.{KeyMaterial}
use ha_pi_manager_integratio.Contract.Status.{is_machine_id}
use ha_pi_manager_integratio.Integration.KeyStore.Files.{
  File, Entry, Store, works, before, newlines, write_private, write_public, write_secret,
}
use ha_pi_manager_integratio.Integration.KeyStore.Operations.{
  load_material, create_for_machine, create_for, generate_new, generate_pair, new_secret, lower_hex,
}
use ha_pi_manager_integratio.Integration.KeyStore.Written.{
  TextsAreClean, create_for_machine-load_material, create_for_machine-twice,
  create_for_machine-private, IsStuck, create_for_machine-IsStuck,
}

abbrev empty_entry : Entry
empty_entry = record { private_file = none; public_file = none; secret_file = none }

abbrev pub empty_store : Store
empty_store = record {
  entries = λ key_id. empty_entry;
  faults = [];
  pairs = some ("PRIVATE", "ssh-ed25519 AAAA") ∷ [];
  secrets = "c2VjcmV0" ∷ [];
}

abbrev pub sample_id : String
sample_id = "0123456789ABCDEF"

abbrev pub sample_material : KeyMaterial
sample_material = record {
  key_id = "0123456789abcdef";
  private_key = "PRIVATE";
  public_key = "ssh-ed25519 AAAA\n";
  upgrade_secret = "c2VjcmV0";
}

empty_store-TextsAreClean : TextsAreClean empty_store
unfolding newlines strip lstrip rstrip is_space
empty_store-TextsAreClean = record {
  private_clean = refl;
  public_clean = refl;
  secret_clean = refl;
}

create_for_machine-load_material_example :
    load_material sample_id (create_for_machine sample_id empty_store).1 ≡ ok sample_material
unfolding create_for_machine ◌>>=◌ is_machine_id create_for generate_new generate_pair write_private
    write_public write_secret new_secret lower_hex strip lstrip rstrip is_space
create_for_machine-load_material_example =
    create_for_machine-load_material sample_id sample_material empty_store empty_store-TextsAreClean
      refl

create_for_machine-twice_example :
    create_for_machine sample_id (create_for_machine sample_id empty_store).1
    ≡ (ok sample_material, (create_for_machine sample_id empty_store).1)
unfolding create_for_machine ◌>>=◌ is_machine_id create_for generate_new generate_pair write_private
    write_public write_secret new_secret lower_hex strip lstrip rstrip is_space
create_for_machine-twice_example =
    create_for_machine-twice sample_id sample_material empty_store empty_store-TextsAreClean refl

abbrev key_file : File
key_file = record { content = "PRIVATE"; mode = 384 }

abbrev full_store : Store
full_store = record empty_store {
  entries = λ key_id. record empty_entry { private_file = some key_file };
}

create_for_machine-private_example :
    ((create_for_machine sample_id full_store).1.entries "feedfeedfeedfeed").private_file
    ≡ some key_file
create_for_machine-private_example =
    create_for_machine-private sample_id "feedfeedfeedfeed" key_file full_store refl

abbrev failing_store : Store
failing_store = record empty_store { faults = works ∷ before ∷ [] }

create_for_machine-IsStuck_example :
    IsStuck sample_id (create_for_machine sample_id failing_store).1
unfolding is_machine_id
create_for_machine-IsStuck_example =
    create_for_machine-IsStuck sample_id "PRIVATE" "ssh-ed25519 AAAA" [] failing_store
      (create_for_machine sample_id failing_store).1 refl refl refl refl refl refl refl
