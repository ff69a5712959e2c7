-- ===== src/Json.antt =====
-- JSON documents as `json.loads` gives them to the program: `None`, `bool`, `int`, `float`, `str`,
-- `list` and `dict`, and the tests that the program makes on such values.
pub mod Floats
pub mod Laws
use ha_pi_manager_integratio.Prelude.{
  ℕ, String, ℤ, Bool, true, false, Option, none, some, List, [], ◌∷◌, ◌≡◌, refl, ap, nat_eq, ◌==◌,
  if◌then◌else◌, pos, negsuc,
}
use Floats.{Float, equals_nat}

mutual
  pub data Value : Type 0 where
    null : Value
    bool : Bool → Value
    int : ℤ → Value
    float : Float → Value
    str : String → Value
    list : Items → Value
    dict : Fields → Value

  pub data Items : Type 0 where
    nil : Items
    cons : Value → Items → Items

  pub data Fields : Type 0 where
    end : Fields
    field : String → Value → Fields → Fields

-- What `json.loads` does with a text: it raises `JSONDecodeError` for a text that is no document, and a
-- plain `ValueError` for an integer of more than 4300 digits.
pub data Loaded : Type 0 where
  decoded : Value → Loaded
  malformed : Loaded
  too_long : String → Loaded

abbrev pub elements : Items → List Value
elements nil = []
elements (cons v vs) = v ∷ elements vs

abbrev pub of_list : List Value → Items
of_list [] = nil
of_list (v ∷ vs) = cons v (of_list vs)

pub elements-of_list : (vs : List Value) → elements (of_list vs) ≡ vs
elements-of_list [] = refl
elements-of_list (v ∷ vs) = ap (λ (us : List Value). v ∷ us) (elements-of_list vs)

-- `d.get(key)` as an `Option`
abbrev pub find : String → Fields → Option Value
find key end = none
find key (field k v rest) = if k == key then some v else find key rest

-- `d.get(key, default)`: a key that holds `None` does not get the default.
abbrev pub get_or : Value → String → Fields → Value
get_or default key fields = elim (find key fields) [ none ↦ default | some v ↦ v ]

-- `d.get(key)`
abbrev pub get : String → Fields → Value
get = get_or null

-- `d[key] = v`
unfoldable pub set : String → Value → Fields → Fields
set key v end = field key v end
set key v (field k w rest) = if k == key then field k v rest else field k w (set key v rest)

-- `list(d.values())`
abbrev pub values : Fields → List Value
values end = []
values (field k v rest) = v ∷ values rest

abbrev pub strings : List String → Items
strings [] = nil
strings (s ∷ rest) = cons (str s) (strings rest)

-- `v == n` for a small natural number: `True == 1` and `1.0 == 1` hold in Python.
unfoldable pub is_nat : Value → ℕ → Bool
unfolding equals_nat
is_nat (int (pos m)) n = nat_eq m n
is_nat (bool true) n = nat_eq n 1
is_nat (bool false) n = nat_eq n 0
is_nat (float x) n = equals_nat x n
is_nat _ n = false

abbrev pub is_true : Value → Bool
is_true (bool b) = b
is_true _ = false
