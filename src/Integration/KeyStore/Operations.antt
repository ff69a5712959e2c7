-- ===== src/Integration/KeyStore/Operations.antt =====
-- `KeyStore._create_for_machine`, `_load` and `_load_material`.
use ha_pi_manager_integratio.Prelude.{
  String, ε, ◌▹◌, Char, Bool, true, false, Option, none, some, List, [], ◌∷◌, ok, err, is_char,
  strip, append, if◌then◌else◌,
}
use ha_pi_manager_integratio.Prelude.Exec.{◌>>=◌, ◌>>◌, pure, raise, lift, gets, unless}
use ha_pi_manager_integratio.Errors.{Exc, PyError, bootstrap}
use ha_pi_manager_integratio.Models.{KeyMaterial}
use ha_pi_manager_integratio.Contract.Status.{is_machine_id}
use ha_pi_manager_integratio.Integration.KeyStore.Files.{
  File, Entry, Store, Io, newlines, write_private, write_public, write_secret,
}

-- `c.lower()` of a hexadecimal digit
abbrev lower_digit : Char → Char
lower_digit c =
    if is_char 65 c
    then "a"
    else if is_char 66 c
    then "b"
    else if is_char 67 c
    then "c"
    else if is_char 68 c
    then "d"
    else if is_char 69 c
    then "e"
    else if is_char 70 c
    then "f"
    else c

-- `machine_id.lower()`
unfoldable pub lower_hex : String → String
lower_hex ε = ε
lower_hex (c ▹ s) = lower_digit c ▹ lower_hex s

abbrev pub exists : Option File → Bool
exists none = false
exists (some _) = true

abbrev read_text : PyError → Option File → Exc String
read_text e none = err e
read_text e (some file) = ok (newlines file.content)

abbrev missing : PyError
missing = bootstrap "key_load" "The per-host SSH key or upgrade trust secret is unavailable"

unfoldable pub read_material : String → Entry → Exc KeyMaterial
unfolding newlines strip
read_material key_id entry = elim (read_text missing entry.private_file) [
  | err e ↦ err e
  | ok private_key ↦ elim (read_text missing entry.public_file) [
    | err e ↦ err e
    | ok public_key ↦ elim (read_text missing entry.secret_file) [
      | err e ↦ err e
      | ok secret ↦ ok (record {
        key_id = key_id;
        private_key = private_key;
        public_key = public_key;
        upgrade_secret = strip secret;
      })
    ]
  ]
]

-- `_load`
unfoldable pub load : String → Store → Exc String
unfolding lower_hex newlines
load key_id s =
    if is_machine_id key_id
    then read_text (bootstrap "key_load" "The per-host SSH key is unavailable")
        (s.entries (lower_hex key_id)).private_file
    else err (bootstrap "key_load" "Key reference is invalid")

-- `_load_material`
unfoldable pub load_material : String → Store → Exc KeyMaterial
unfolding lower_hex read_material
load_material key_id s =
    if is_machine_id key_id
    then read_material (lower_hex key_id) (s.entries (lower_hex key_id))
    else err (bootstrap "key_load" "Key reference is invalid")

abbrev pub first_text : List String → String
first_text [] = ε
first_text (text ∷ _) = text

abbrev later_texts : List String → List String
later_texts [] = []
later_texts (_ ∷ rest) = rest

-- `base64.b64encode(secrets.token_bytes(32))`
unfoldable pub new_secret : Io String
new_secret s = (ok (first_text s.secrets), record s { secrets = later_texts s.secrets })

abbrev pair_result : List (Option (String × String)) → Exc (String × String)
pair_result (some pair ∷ _) = ok pair
pair_result _ = err (bootstrap "key_generation" "Ed25519 key generation is unavailable")

abbrev later_pairs : List (Option (String × String)) → List (Option (String × String))
later_pairs [] = []
later_pairs (_ ∷ rest) = rest

-- `asyncssh.generate_private_key`, with its two exports
unfoldable pub generate_pair : Io (String × String)
generate_pair s = (pair_result s.pairs, record s { pairs = later_pairs s.pairs })

abbrev write_missing_secret : Bool → String → Io (Unit {0})
write_missing_secret true key_id = pure tt
write_missing_secret false key_id = do secret ← new_secret; write_secret key_id secret

-- The branch where the key pair is there
unfoldable pub reuse_pair : String → Io KeyMaterial
unfolding new_secret write_secret read_material
reuse_pair key_id = do
  entry ← gets (λ s. s.entries key_id)
  write_missing_secret (exists entry.secret_file) key_id
  complete ← gets (λ s. s.entries key_id)
  lift (read_material key_id complete)

-- The branch where there is no key pair
unfoldable pub generate_new : String → Io KeyMaterial
unfolding generate_pair write_private write_public write_secret new_secret strip
generate_new key_id = do
  pair ← generate_pair
  let public_text = append (strip pair.1) "\n"
  write_private key_id pair.0
  write_public key_id public_text
  upgrade_secret ← new_secret
  write_secret key_id upgrade_secret
  pure (record {
    key_id = key_id;
    private_key = pair.0;
    public_key = public_text;
    upgrade_secret = upgrade_secret;
  })

abbrev pub incomplete : PyError
incomplete = bootstrap "key_generation" "The local per-host keypair is incomplete"

abbrev by_presence : Bool → Bool → String → Io KeyMaterial
by_presence true true key_id = reuse_pair key_id
by_presence false false key_id = generate_new key_id
by_presence _ _ key_id = raise incomplete

unfoldable pub create_for : String → Io KeyMaterial
unfolding reuse_pair generate_new
create_for key_id = do
  entry ← gets (λ s. s.entries key_id)
  by_presence (exists entry.private_file) (exists entry.public_file) key_id

-- `_create_for_machine`
unfoldable pub create_for_machine : String → Io KeyMaterial
unfolding create_for lower_hex
create_for_machine machine_id = do
  unless (is_machine_id machine_id)
      (bootstrap "key_generation" "Remote machine identity is invalid")
  create_for (lower_hex machine_id)
