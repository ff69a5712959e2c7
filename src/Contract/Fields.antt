-- ===== src/Contract/Fields.antt =====
-- The typed accessors of contract.py: `_mapping`, `_string`, `_optional_string`, `_number`, `_bool`.
use ha_pi_manager_integratio.Prelude.{
  ℕ, ◌+◌, String, ◌<>◌, ◌==◌, Bool, false, ◌&&◌, not, Option, none, some, List, [], ◌∷◌, ok, err,
  ltb, str_len, if◌then◌else◌, show_nat,
}
use ha_pi_manager_integratio.Prelude.Results.{◌>>=◌}
use ha_pi_manager_integratio.Errors.{Exc, helper_protocol, overflow_error}
use ha_pi_manager_integratio.Json.{Value, null, bool, int, float, str, dict, Fields}
use ha_pi_manager_integratio.Json.Floats.{Float, of_int, is_finite, is_negative}

unfoldable pub mapping : Value → String → Exc Fields
mapping (dict fields) _ = ok fields
mapping _ name = err (helper_protocol ("helper_field_not_object:" <> name))

-- `_string`; the default is the empty text where the source gives none.
unfoldable pub string : Value → String → String → Exc String
string (str text) name default =
    if ltb 4096 (str_len text)
    then err (helper_protocol ("helper_field_too_large:" <> name))
    else ok text
string null name default =
    if default == "" then err (helper_protocol ("helper_field_not_string:" <> name)) else ok default
string _ name default = err (helper_protocol ("helper_field_not_string:" <> name))

unfoldable pub optional_string : Value → String → Exc (Option String)
optional_string null name = ok none
optional_string value name = do text ← string value name ""; ok (some text)

-- The last two lines of `_number`: `convert` is `int` for an integer field, the identity if not.
unfoldable pub checked : {A : Type 0} → (Float → A) → Float → String → Exc A
checked convert x name =
    if is_finite x && not (is_negative x)
    then ok (convert x)
    else err (helper_protocol ("helper_field_invalid_number:" <> name))

-- `_number`; `float(value)` of a huge `int` is an `OverflowError`.
unfoldable pub number : {A : Type 0} → (Float → A) → A → Value → String → Exc A
number convert default null name = ok default
number convert default (int n) name = elim (of_int n) [
  | none ↦ err overflow_error
  | some x ↦ checked convert x name
]
number convert default (float x) name = checked convert x name
number convert default _ name = err (helper_protocol ("helper_field_not_number:" <> name))

-- `_bool`; its default is `False` at every call.
unfoldable pub boolean : Value → String → Exc Bool
boolean null name = ok false
boolean (bool b) name = ok b
boolean _ name = err (helper_protocol ("helper_field_not_bool:" <> name))

-- `tuple(parse(item, index) for index, item in enumerate(items))`
unfoldable pub parse_each : {A : Type 0} → (Value → ℕ → Exc A) → ℕ → List Value → Exc (List A)
parse_each parse index [] = ok []
parse_each parse index (item ∷ items) = do
  a ← parse item index
  rest ← parse_each parse (index + 1) items
  ok (a ∷ rest)

-- `f"{list}[{index}].{field}"`
abbrev pub at_index : String → ℕ → String → String
at_index list_name index rest = list_name <> "[" <> show_nat index <> "]" <> rest
