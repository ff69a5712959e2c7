-- ===== src/Agent/Names.antt =====
-- The regular expressions of the helper, each a `fullmatch`: names of services, packages, job
-- units and sudo users, and version numbers.
pub mod Safe
use ha_pi_manager_integratio.Prelude.{
  ℕ, String, ε, ◌▹◌, ◌==◌, Char, code, Bool, true, false, not, ◌&&◌, ◌||◌, Option, none, some,
  nat_eq, leb, str_len, str_take, all_chars, any_char, is_char, char_in, after_prefix, has_suffix,
  is_alnum, is_letter, is_lower_hex, is_decimal, if◌then◌else◌,
}

-- `[A-Za-z0-9@_.:-]`
abbrev pub is_service_char : Char → Bool
is_service_char c = is_alnum c || char_in "@_.:-" c

-- `SERVICE_RE`: the characters of `.service` are all in the class, so the text after the first
-- character is of the class and ends in `.service`.
unfoldable pub matches_service : String → Bool
matches_service ε = false
matches_service (c ▹ rest) =
    is_alnum c && all_chars is_service_char rest && has_suffix ".service" rest

abbrev pub shell_characters : String
shell_characters = ";|&$`()<>/\\\n\r\t"

-- `_service_name_valid`
unfoldable pub service_name_valid : String → Bool
service_name_valid name = matches_service name && not (any_char (char_in shell_characters) name)

-- `PACKAGE_NAME_RE`
unfoldable pub matches_package : String → Bool
matches_package ε = false
matches_package (c ▹ rest) =
    is_alnum c && all_chars (λ d. is_alnum d || char_in "@+_.:~-" d) rest && leb (str_len rest) 255

abbrev hex_32 : String → Bool
hex_32 text = all_chars is_lower_hex text && nat_eq (str_len text) 32

abbrev matches_after : String → String → Bool
matches_after prefix unit = elim (after_prefix prefix unit) [
  | none ↦ false
  | some text ↦ hex_32 text
]

-- `JOB_UNIT_RE`
unfoldable pub matches_job_unit : String → Bool
matches_job_unit unit =
    matches_after "pi-manager-update-" unit || matches_after "pi-manager-job-" unit

-- `SUDOERS_USERNAME_RE`
unfoldable pub matches_username : String → Bool
matches_username ε = false
matches_username (c ▹ rest) =
    (is_letter c || is_char b'_' c)
    && all_chars (λ d. is_alnum d || char_in "_-" d) rest
    && leb (str_len rest) 31

-- What follows the digits at the front, of which there is at least one: `\d+`.
abbrev skip_digits : String → String
skip_digits ε = ε
skip_digits (c ▹ s) = let rest = skip_digits s in if is_decimal c then rest else c ▹ s

abbrev digits_then : String → Option String
digits_then ε = none
digits_then (c ▹ s) = if is_decimal c then some (skip_digits s) else none

abbrev dot_then : Option String → Option String
dot_then none = none
dot_then (some ε) = none
dot_then (some (c ▹ s)) = if is_char b'.' c then digits_then s else none

-- `\d+\.\d+\.\d+`
unfoldable pub is_version : String → Bool
unfolding is_decimal
is_version text = elim (dot_then (dot_then (digits_then text))) [
  | none ↦ false
  | some rest ↦ rest == ε
]
