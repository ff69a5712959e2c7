-- ===== src/Integration/Discovery/Texts.antt =====
-- The texts that discovery.py reads: `/etc/os-release`, versions and words.
use ha_pi_manager_integratio.Prelude.{
  ◌+◌, String, ε, ◌▹◌, Char, code, ◌==◌, Bool, true, false, ◌&&◌, ◌||◌, not, Option, none, some,
  List, [], ◌∷◌, all_chars, is_char, is_decimal, nat_eq, between, partition, splitlines, strip,
  if◌then◌else◌,
}
use Prim.Native.String.{compare}
use Prim.Native.Nat.{Ordering}

-- A dictionary of texts, in the order of its keys' first appearance
abbrev pub Info : Type 0
Info = List (String × String)

abbrev pub set_info : String → String → Info → Info
set_info key value [] = (key, value) ∷ []
set_info key value ((k, v) ∷ rest) =
    let more = (k, v) ∷ set_info key value rest in if k == key then (k, value) ∷ rest else more

abbrev pub get_info : String → String → Info → String
get_info key default [] = default
get_info key default ((k, v) ∷ rest) =
    let more = get_info key default rest in if k == key then v else more

-- `[A-Z_]`
abbrev is_key_char : Char → Bool
is_key_char c = between b'A' b'Z' (code c) || is_char b'_' c

-- `_OS_LINE`, of a stripped line: its key and value
unfoldable pub os_line : String → Option (String × String)
unfolding partition
os_line line = elim (partition "=" line) [
  | none ↦ none
  | some (key, value) ↦
      if not (key == "") && all_chars is_key_char key then some (key, value) else none
]

unfoldable pub collect_info : Info → List String → Info
unfolding os_line strip
collect_info info [] = info
collect_info info (line ∷ lines) = elim (os_line (strip line)) [
  | none ↦ collect_info info lines
  | some (key, value) ↦ collect_info (set_info key value info) lines
]

-- `_parse_os_release`
unfoldable pub parse_os_release : String → Info
unfolding collect_info splitlines
parse_os_release content = collect_info [] (splitlines content)

-- `s.lower() == word`, for a word of small letters without `k` or a dotted `i`: no other character
-- than a capital letter of ASCII has one of the others as its lower case.
unfoldable pub lower_is : String → String → Bool
lower_is ε ε = true
lower_is ε (d ▹ s) = false
lower_is (c ▹ w) ε = false
lower_is (c ▹ w) (d ▹ s) =
    let rest = lower_is w s in (nat_eq (code d) (code c) || nat_eq (code d + 32) (code c)) && rest

abbrev starts_decimal : String → Bool
starts_decimal ε = false
starts_decimal (c ▹ s) = is_decimal c

-- The rest of `\d+(?:\.\d+)*`, behind a digit
unfoldable pub version_rest : String → String
unfolding is_decimal
version_rest ε = ε
version_rest (c ▹ s) =
    let more = c ▹ version_rest s in
    if is_decimal c then more else if is_char b'.' c && starts_decimal s then more else ε

-- `_parse_agent_version`
unfoldable pub parse_agent_version : String → Option String
unfolding version_rest is_decimal
parse_agent_version ε = none
parse_agent_version (c ▹ s) =
    let later = parse_agent_version s in if is_decimal c then some (c ▹ version_rest s) else later

abbrev insert_text : String → List String → List String
insert_text x [] = x ∷ []
insert_text x (y ∷ ys) =
    let more = y ∷ insert_text x ys in elim (compare y x) [ Ordering.lt ↦ more | _ ↦ x ∷ y ∷ ys ]

-- `sorted(info)`: the keys in the order of code points
abbrev pub sorted_keys : Info → List String
sorted_keys [] = []
sorted_keys ((k, v) ∷ rest) = insert_text k (sorted_keys rest)
