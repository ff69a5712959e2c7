-- ===== src/Integration/KeyStore/Files.antt =====
-- The files of `KeyStore`, and `_write_private` and `_write_file`. Each machine has one file for each
-- of its private key, its public key and its upgrade secret.
use ha_pi_manager_integratio.Prelude.{
  ℕ, String, ε, ◌▹◌, ◌==◌, Option, none, some, List, [], ◌∷◌, ok, err, is_char, if◌then◌else◌,
}
use ha_pi_manager_integratio.Prelude.Exec.{Exec}
use ha_pi_manager_integratio.Errors.{Exc, PyError, os_error}

pub record File : Type 0 where
  pub content : String
  pub mode : ℕ

pub record Entry : Type 0 where
  pub private_file : Option File
  pub public_file : Option File
  pub secret_file : Option File

-- How a write goes: it works, it fails before the file is there, it fails with a part written, or the
-- last `os.chmod` fails, with the whole file in place.
pub data Fault : Type 0 where
  works before late : Fault
  partway : String → Fault

-- `pairs` holds what `asyncssh.generate_private_key` gives, as the exported texts, and `none` where it
-- fails; `secrets` holds the base64 texts of the random tokens.
pub record Store : Type 0 where
  pub entries : String → Entry
  pub faults : List Fault
  pub pairs : List (Option (String × String))
  pub secrets : List String

abbrev pub Io : Type 0 → Type 0
Io = Exec Store PyError

-- `read_text` reads each end of a line, `\r\n` or `\r`, as `\n`.
unfoldable pub newlines : String → String
newlines ε = ε
newlines (c ▹ ε) = if is_char 13 c then "\n" else c ▹ ε
newlines (c ▹ (d ▹ s)) =
    let rest = newlines (d ▹ s) in
    if is_char 13 c then (if is_char 10 d then rest else "\n" ▹ rest) else c ▹ rest

abbrev pub first_fault : List Fault → Fault
first_fault [] = works
first_fault (f ∷ _) = f

abbrev pub later_faults : List Fault → List Fault
later_faults [] = []
later_faults (_ ∷ rest) = rest

abbrev pub set_entry : String → Entry → (String → Entry) → String → Entry
set_entry key_id entry entries other = if other == key_id then entry else entries other

abbrev pub with_entry : String → Entry → Store → Store
with_entry key_id entry s = record s { entries = set_entry key_id entry s.entries }

abbrev next_write : Store → Store
next_write s = record s { faults = later_faults s.faults }

abbrev pub private_mode : ℕ
private_mode = 384

abbrev pub public_mode : ℕ
public_mode = 420

abbrev written : String → ℕ → Option File
written content mode = some (record { content = content; mode = mode })

abbrev disk_error : PyError
disk_error = os_error "No space left on device"

-- `_write_private`: a file that is there stays, and a write that fails leaves its part.
unfoldable pub write_private : String → String → Io (Unit {0})
write_private key_id content s =
    let entry = s.entries key_id in
    elim entry.private_file [
      | some _ ↦ (ok tt, s)
      | none ↦ elim (first_fault s.faults) [
        | works ↦ (
          ok tt,
          with_entry key_id (record entry { private_file = written content private_mode })
              (next_write s),
        )
        | before ↦ (err disk_error, next_write s)
        | late ↦ (
          err disk_error,
          with_entry key_id (record entry { private_file = written content private_mode })
              (next_write s),
        )
        | partway part ↦ (
          err disk_error,
          with_entry key_id (record entry { private_file = written part private_mode })
              (next_write s),
        )
      ]
    ]

-- `_write_file`: the content goes to a temporary file, which replaces the old one or is removed. The
-- `os.chmod` behind the replacement may still fail.
abbrev replace_file : Entry → String → Store → Exc (Unit {0}) × Store
replace_file entry key_id s = elim (first_fault s.faults) [
  | works ↦ (ok tt, with_entry key_id entry (next_write s))
  | late ↦ (err disk_error, with_entry key_id entry (next_write s))
  | _ ↦ (err disk_error, next_write s)
]

unfoldable pub write_public : String → String → Io (Unit {0})
write_public key_id content s =
    replace_file (record (s.entries key_id) { public_file = written content public_mode }) key_id s

unfoldable pub write_secret : String → String → Io (Unit {0})
write_secret key_id content s =
    replace_file (record (s.entries key_id) { secret_file = written content private_mode }) key_id s
