-- ===== src/Integration/KeyStore/Written.antt =====
-- What the files of a machine hold after `KeyStore._create_for_machine`, whichever writes fail.
use ha_pi_manager_integratio.Prelude.{
  String, ◌==◌, ◌≡◌, Bool, true, false, Option, none, some, List, ◌∷◌, ok, err, arith, eq_iff,
  eq_refl, strip, append,
}
use ha_pi_manager_integratio.Prelude.Exec.{◌>>=◌, raise, unless}
use ha_pi_manager_integratio.Models.{KeyMaterial}
use ha_pi_manager_integratio.Contract.Status.{is_machine_id}
use ha_pi_manager_integratio.Integration.KeyStore.Files.{
  File, Store, Fault, works, late, newlines, write_private, write_public, write_secret, first_fault,
}
use ha_pi_manager_integratio.Integration.KeyStore.Operations.{
  lower_hex, read_material, load_material, reuse_pair, generate_new, create_for, create_for_machine,
  incomplete, new_secret, generate_pair, first_text,
}

abbrev pub next_private : List (Option (String × String)) → String
next_private (some (private_key, _) ∷ _) = private_key
next_private _ = ""

-- The text that goes to the public file
abbrev pub next_public : List (Option (String × String)) → String
next_public (some (_, public_key) ∷ _) = append (strip public_key) "\n"
next_public _ = ""

-- The next key pair and the next secret are texts that a file gives back as they are.
pub record TextsAreClean (s : Store) : Type 0 where
  pub private_clean : newlines (next_private s.pairs) ≡ next_private s.pairs
  pub public_clean : newlines (next_public s.pairs) ≡ next_public s.pairs
  pub secret_clean : strip (newlines (first_text s.secrets)) ≡ first_text s.secrets

-- The private key of a machine that has one stays as it is.
create_for-private :
    (key_id : String) (file : File) (s : Store)
    → (s.entries key_id).private_file ≡ some file
    → ((create_for key_id s).1.entries key_id).private_file ≡ some file
unfolding create_for reuse_pair generate_new new_secret generate_pair write_private write_public
    write_secret ◌>>=◌
create_for-private key_id file s h = ground (arith, eq_refl key_id)

-- The keys of other machines stay as they are.
pub create_for-others :
    (key_id other : String) (s : Store)
    → (other == key_id) ≡ false
    → (create_for key_id s).1.entries other ≡ s.entries other
unfolding create_for reuse_pair generate_new new_secret generate_pair write_private write_public
    write_secret ◌>>=◌
create_for-others key_id other s h = ground arith

-- What a creation returns is what the files hold.
create_for-read_material :
    (key_id : String) (m : KeyMaterial) (s : Store)
    → TextsAreClean s
    → (create_for key_id s).0 ≡ ok m
    → read_material key_id ((create_for key_id s).1.entries key_id) ≡ ok m
unfolding create_for reuse_pair generate_new new_secret generate_pair write_private write_public
    write_secret read_material ◌>>=◌
create_for-read_material key_id m s clean e =
    ground (arith, eq_refl key_id, clean.private_clean, clean.public_clean, clean.secret_clean)

create_for_machine-ok :
    (machine_id : String) (m : KeyMaterial) (s : Store)
    → (create_for_machine machine_id s).0 ≡ ok m
    → (is_machine_id machine_id ≡ true)
      × (create_for_machine machine_id s ≡ create_for (lower_hex machine_id) s)
unfolding create_for_machine ◌>>=◌ unless
create_for_machine-ok machine_id m s e = ground arith

-- If the next texts are clean, what a creation returns is what `_load_material` reads from then on.
pub create_for_machine-load_material :
    (machine_id : String) (m : KeyMaterial) (s : Store)
    → TextsAreClean s
    → (create_for_machine machine_id s).0 ≡ ok m
    → load_material machine_id (create_for_machine machine_id s).1 ≡ ok m
unfolding load_material
create_for_machine-load_material machine_id m s clean e =
    let (valid, same) = create_for_machine-ok machine_id m s e in
    ground (arith, valid, same, create_for-read_material (lower_hex machine_id) m s clean)

create_for-again :
    (key_id : String) (m : KeyMaterial) (s : Store)
    → read_material key_id (s.entries key_id) ≡ ok m
    → create_for key_id s ≡ (ok m, s)
unfolding create_for reuse_pair read_material ◌>>=◌
create_for-again key_id m s e = ground arith

-- If the next texts are clean, a second creation returns the same and changes nothing.
pub create_for_machine-twice :
    (machine_id : String) (m : KeyMaterial) (s : Store)
    → TextsAreClean s
    → (create_for_machine machine_id s).0 ≡ ok m
    → create_for_machine machine_id (create_for_machine machine_id s).1
      ≡ (ok m, (create_for_machine machine_id s).1)
unfolding create_for_machine ◌>>=◌ unless
create_for_machine-twice machine_id m s clean e =
    let (valid, same) = create_for_machine-ok machine_id m s e in
    ground (
      arith,
      valid,
      same,
      create_for-read_material (lower_hex machine_id) m s clean,
      create_for-again (lower_hex machine_id) m (create_for_machine machine_id s).1,
    )

-- A creation fails and changes nothing.
pub record IsStuck (machine_id : String) (s : Store) : Type 0 where
  pub failed : (create_for_machine machine_id s).0 ≡ err incomplete
  pub unchanged : (create_for_machine machine_id s).1 ≡ s

abbrev pub second_fault : List Fault → Fault
second_fault (_ ∷ f ∷ _) = f
second_fault _ = works

-- The write fails and puts no new file in place of the old one.
abbrev pub replaces_nothing : Fault → Bool
replaces_nothing works = false
replaces_nothing late = false
replaces_nothing _ = true

-- If a machine has no keys, its private key is written and the write of its public key fails before the
-- file is in place, then over the files as they are left every creation for it fails and changes
-- nothing.
pub create_for_machine-IsStuck :
    (machine_id private_key public_key : String) (rest : List (Option (String × String)))
    (s later : Store)
    → is_machine_id machine_id ≡ true
    → (s.entries (lower_hex machine_id)).private_file ≡ none
    → (s.entries (lower_hex machine_id)).public_file ≡ none
    → s.pairs ≡ some (private_key, public_key) ∷ rest
    → first_fault s.faults ≡ works
    → replaces_nothing (second_fault s.faults) ≡ true
    → later.entries ≡ (create_for_machine machine_id s).1.entries
    → IsStuck machine_id later
unfolding create_for_machine create_for generate_new new_secret generate_pair write_private
    write_public write_secret unless raise ◌>>=◌
create_for_machine-IsStuck machine_id private_key public_key rest s later valid no_private no_public
      pairs f g same =
    record {
      failed = ground (arith, eq_refl (lower_hex machine_id));
      unchanged = ground (arith, eq_refl (lower_hex machine_id));
    }

-- Whichever writes fail, no private key that is there is replaced, of this or of another machine.
pub create_for_machine-private :
    (machine_id key_id : String) (file : File) (s : Store)
    → (s.entries key_id).private_file ≡ some file
    → ((create_for_machine machine_id s).1.entries key_id).private_file ≡ some file
unfolding create_for_machine ◌>>=◌ unless
create_for_machine-private machine_id key_id file s h = ground (
  arith,
  eq_iff key_id (lower_hex machine_id),
  create_for-private key_id file s h,
  create_for-others (lower_hex machine_id) key_id s,
)
