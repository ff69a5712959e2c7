-- ===== src/Integration/Validation.antt =====
-- custom_components/pi_manager/validation.py: what the flows and the runtime let through to SSH.
pub mod Laws
use ha_pi_manager_integratio.Prelude.{
  ℕ, ◌≤◌, ℤ, pos, negsuc, String, ε, ◌▹◌, ◌==◌, Char, code, Bool, true, false, not, ◌&&◌, ◌||◌,
  Option, none, some, List, [], ◌∷◌, ◌++◌, ok, err, leb, ltb, str_len, all_chars, any_char, char_in,
  has_infix, is_alnum, strip, any, if◌then◌else◌,
}
use ha_pi_manager_integratio.Prelude.Results.{◌>>=◌, ◌>>◌, require}
use ha_pi_manager_integratio.Errors.{Exc, value_error, service_name}
use ha_pi_manager_integratio.Agent.Names.{matches_service, matches_username, shell_characters}
use ha_pi_manager_integratio.Agent.Services.{contains}

abbrev ends_alnum : String → Bool
ends_alnum ε = false
ends_alnum (c ▹ ε) = is_alnum c
ends_alnum (c ▹ s) = ends_alnum s

-- `_HOSTNAME_RE`: a single letter or digit, or up to 251 characters between two of them
unfoldable pub matches_hostname : String → Bool
matches_hostname ε = false
matches_hostname (c ▹ ε) = is_alnum c
matches_hostname (c ▹ rest) =
    is_alnum c
    && all_chars (λ d. is_alnum d || char_in ".-" d) rest
    && ends_alnum rest
    && leb (str_len rest) 252

-- `validate_host`; `is_ip` stands for `ipaddress.ip_address`.
unfoldable pub validate_host : (String → Bool) → String → Exc String
validate_host is_ip host =
    let value = strip host in
    if (value == "") || ltb 253 (str_len value) || any_char (λ c. ltb (code c) 32) value
    then err (value_error "host_invalid")
    else if is_ip value
    then ok value
    else if matches_hostname value && not (has_infix ".." value)
    then ok value
    else err (value_error "host_invalid")

-- `int | str`
pub data Port : Type 0 where
  number : ℤ → Port
  text : String → Port

abbrev in_range : ℤ → Bool
in_range (pos n) = leb 1 n && leb n 65535
in_range (negsuc n) = false

-- `validate_port`; `parse_int` stands for `int` of a text.
unfoldable pub validate_port : (String → Option ℤ) → Port → Exc ℤ
validate_port parse_int (number value) =
    if in_range value then ok value else err (value_error "port_invalid")
validate_port parse_int (text digits) = elim (parse_int digits) [
  | none ↦ err (value_error "port_invalid")
  | some value ↦ if in_range value then ok value else err (value_error "port_invalid")
]

unfoldable pub validate_username : String → Exc String
validate_username username =
    let value = strip username in
    if matches_username value then ok value else err (value_error "username_invalid")

unfoldable pub validate_service_name : String → Exc String
validate_service_name name = do
  let value = strip name
  require ((value == name) && matches_service value) (service_name "service_invalid")
  require (not (any_char (char_in shell_characters) value)) (service_name "service_invalid")
  ok value

unfoldable pub validate_service_allowlist : String → List String → Exc String
validate_service_allowlist name allowlist = do
  value ← validate_service_name name
  require (contains value allowlist) (service_name "service_not_allowlisted")
  ok value

-- The loop of `validate_service_list`, from the result so far
unfoldable pub collect_services : List String → List String → Exc (List String)
collect_services result [] = ok result
collect_services result (name ∷ names) = do
  validated ← validate_service_name name
  collect_services (if contains validated result then result else result ++ (validated ∷ [])) names

unfoldable pub validate_service_list : List String → Exc (List String)
unfolding collect_services
validate_service_list names = collect_services [] names
