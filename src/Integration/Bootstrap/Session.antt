-- ===== src/Integration/Bootstrap/Session.antt =====
-- What a bootstrap works on: two clients, the local keys, and the bundled files.
use ha_pi_manager_integratio.Prelude.{
  String, ε, ◌▹◌, ◌==◌, false, Option, none, some, List, [], ◌∷◌, ◌++◌, ok, err, is_char,
  has_prefix, partition, splitlines, strip, if◌then◌else◌,
}
use ha_pi_manager_integratio.Prelude.Exec.{Exec}
use ha_pi_manager_integratio.Errors.{Exc, PyError, index_error}
use ha_pi_manager_integratio.Json.{Value}
use ha_pi_manager_integratio.Integration.Runtime.State.{Python}
use ha_pi_manager_integratio.Integration.Ssh.Client.{Client, Ssh, Utf8}
use ha_pi_manager_integratio.Integration.KeyStore.Files.{Store}

-- What the bootstrap calls of Python, with the two calls of `str.replace` on the sudo template
pub record Library : Type 0 where
  pub python : Python
  pub utf8 : Utf8
  pub dumps : Value → String
  pub base64 : String → String
  pub fill : String → String → String → String

-- The bundled files; one that cannot be read is missing.
pub record Bundle : Type 0 where
  pub agent : Option String
  pub ctl : Option String
  pub sudoers : Option String

-- `tokens` holds what `secrets.token_hex` gives.
pub record Session : Type 0 where
  pub client : Client
  pub final_client : Client
  pub keys : Store
  pub tokens : List String
  pub temporary_paths : List String
  pub changed_files : List String

abbrev pub Boot : Type 0 → Type 0
Boot = Exec Session PyError

-- The options of the bootstrap; a missing one is an empty list.
pub record Options : Type 0 where
  pub monitored_services : List String
  pub filesystem_include : List String
  pub filesystem_exclude : List String
  pub network_include : List String
  pub network_exclude : List String

module _ {A : Type 0} where
  unfoldable pub on_client : Ssh A → Boot A
  on_client m s = let (r, c) = m s.client in (r, record s { client = c })

  unfoldable pub on_final : Ssh A → Boot A
  on_final m s = let (r, c) = m s.final_client in (r, record s { final_client = c })

  unfoldable pub on_keys : Exec Store PyError A → Boot A
  on_keys m s = let (r, k) = m s.keys in (r, record s { keys = k })

  -- `try: … finally: …`, where the last part keeps the result
  unfoldable pub then_always : Boot A → (Session → Session) → Boot A
  then_always m last s = let (r, s') = m s in (r, last s')

  abbrev pub map_error : (PyError → PyError) → Exc A → Exc A
  map_error f (ok a) = ok a
  map_error f (err e) = err (f e)

  -- `try: … except …: raise …`
  unfoldable pub translating : (PyError → PyError) → Boot A → Boot A
  translating f m s = let (r, s') = m s in (map_error f r, s')

abbrev pub first_token : List String → String
first_token [] = ε
first_token (t ∷ _) = t

abbrev pub later_tokens : List String → List String
later_tokens [] = []
later_tokens (_ ∷ rest) = rest

-- `secrets.token_hex`
unfoldable pub token : Boot String
token s = (ok (first_token s.tokens), record s { tokens = later_tokens s.tokens })

unfoldable pub add_temporary : String → Boot (Unit {0})
add_temporary path s = (ok tt, record s { temporary_paths = s.temporary_paths ++ (path ∷ []) })

unfoldable pub add_changed : String → Boot (Unit {0})
add_changed path s = (ok tt, record s { changed_files = s.changed_files ++ (path ∷ []) })

-- `client_factory`: a client of its own, not connected
unfoldable pub new_client : Boot (Unit {0})
new_client s = (
  ok tt,
  record s {
    final_client = record s.final_client {
      fingerprint = none;
      connected = false;
      sent = [];
      uploads = [];
    };
  },
)

abbrev quote_lstrip : String → String
quote_lstrip ε = ε
quote_lstrip (c ▹ s) = let rest = quote_lstrip s in if is_char 34 c then rest else c ▹ s

abbrev quote_rstrip : String → String
quote_rstrip ε = ε
quote_rstrip (c ▹ s) =
    let rest = quote_rstrip s in
    if is_char 34 c then (if rest == ε then ε else c ▹ rest) else c ▹ rest

-- `s.strip('"')`
unfoldable pub strip_quotes : String → String
strip_quotes s = quote_rstrip (quote_lstrip s)

unfoldable version_in : List String → Exc String
unfolding strip strip_quotes partition
version_in [] = ok "unknown"
version_in (line ∷ lines) =
    let rest = version_in lines in
    if has_prefix "AGENT_VERSION" line
    then (elim (partition "=" line) [
      | none ↦ err index_error
      | some (_, value) ↦ ok (strip_quotes (strip value))
    ])
    else rest

-- `_helper_version`
unfoldable pub helper_version_of : Option String → Exc String
unfolding version_in splitlines
helper_version_of none = ok "unknown"
helper_version_of (some source) = version_in (splitlines source)
