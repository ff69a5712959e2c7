-- ===== src/Contract/Valid.antt =====
-- What a field of a parsed response satisfies, and that the accessors establish it.
use ha_pi_manager_integratio.Prelude.{
  ℕ, ◌+◌, ◌≤◌, String, true, false, ℤ, pos, negsuc, Option, none, some, List, [], ◌∷◌, ◌≡◌, refl,
  All, length, str_len, arith, Bool-cases, inl, inr, Option-cases,
}
use ha_pi_manager_integratio.Prelude.Results.{Ensures, Ensures-ok, Ensures-err, Ensures-bind}
use ha_pi_manager_integratio.Json.{Value, null, bool, int, float, str, list}
use ha_pi_manager_integratio.Json.Floats.{
  Float, float_zero, of_int, is_finite, is_negative, trunc, trunc_pos,
}
use ha_pi_manager_integratio.Errors.{Exc}
use ha_pi_manager_integratio.Contract.Fields.{string, optional_string, checked, number, parse_each}
use ha_pi_manager_integratio.Contract.Maintenance.{bounded_list, unless_null}

abbrev pub IsText : String → Type 0
IsText text = str_len text ≤ 4096

abbrev pub IsNatural : ℤ → Type 0
IsNatural (pos _) = Unit
IsNatural (negsuc _) = ⊥

pub record IsReading (x : Float) : Type 0 where
  pub finite : is_finite x ≡ true
  pub not_negative : is_negative x ≡ false

-- A field that may be absent satisfies `P` where it is present.
abbrev pub IfPresent : {A : Type 0} → (A → Type 0) → Option A → Type 0
IfPresent P none = Unit
IfPresent P (some a) = P a

abbrev pub Anything : {A : Type 0} → A → Type 0
Anything _ = Unit

pub always : {A : Type 0} (r : Exc A) → Ensures (Anything {A = A}) r
always r = record { at = λ a e. tt }

pub string-IsText :
    (value : Value) (name default : String)
    → IsText default
    → Ensures IsText (string value name default)
unfolding string
string-IsText (str text) name default h = record { at = λ a e. ground arith }
string-IsText null name default h = record { at = λ a e. ground arith }
string-IsText _ name default h = Ensures-err IsText _

pub optional_string-IsText :
    (value : Value) (name : String) → Ensures (IfPresent IsText) (optional_string value name)
unfolding optional_string
optional_string-IsText null name = Ensures-ok (IfPresent IsText) none tt
optional_string-IsText (str t) name =
    Ensures-bind (string-IsText (str t) name "" (omega arith))
      λ text h. Ensures-ok (IfPresent IsText) (some text) h
optional_string-IsText _ name =
    Ensures-bind (string-IsText _ name "" (omega arith))
      λ text h. Ensures-ok (IfPresent IsText) (some text) h

module _ {A : Type 0} (P : A → Type 0) (convert : Float → A) where
  checked-valid :
      ((x : Float) → IsReading x → P (convert x))
      → (x : Float) (name : String) → Ensures P (checked convert x name)
  unfolding checked
  checked-valid keeps x name = elim (Bool-cases (is_finite x)) [
    | inl f ↦ elim (Bool-cases (is_negative x)) [
      | inl n ↦ rw (f, n) (Ensures-err P _)
      | inr n ↦
          rw (f, n) (Ensures-ok P (convert x) (keeps x (record { finite = f; not_negative = n })))
    ]
    | inr f ↦ rw f (Ensures-err P _)
  ]

  pub number-valid :
      ((x : Float) → IsReading x → P (convert x))
      → (default : A) → P default
      → (value : Value) (name : String) → Ensures P (number convert default value name)
  unfolding number
  number-valid keeps default d null name = Ensures-ok P default d
  number-valid keeps default d (int n) name = elim (Option-cases (of_int n)) [
    | inl e ↦ rw (e, number) (Ensures-err P _)
    | inr (x, e) ↦ rw (e, number) (checked-valid keeps x name)
  ]
  number-valid keeps default d (float x) name = checked-valid keeps x name
  number-valid keeps default d _ name = Ensures-err P _

trunc-IsNatural : (x : Float) → IsReading x → IsNatural (trunc x)
trunc-IsNatural x r = let (n, e) = trunc_pos x r.finite r.not_negative in rw e tt

pub count-IsNatural :
    (value : Value) (name : String) → Ensures IsNatural (number trunc (pos 0) value name)
count-IsNatural = number-valid IsNatural trunc trunc-IsNatural (pos 0) tt

zero-IsReading : IsReading float_zero
unfolding is_finite is_negative
zero-IsReading = record { finite = refl; not_negative = refl }

pub amount-IsReading :
    (value : Value) (name : String) → Ensures IsReading (number (λ x. x) float_zero value name)
amount-IsReading = number-valid IsReading (λ x. x) (λ x r. r) float_zero zero-IsReading

pub sensor-IsReading :
    (value : Value) (name : String)
    → Ensures (IfPresent IsReading) (number {A = Option Float} some none value name)
sensor-IsReading = number-valid (IfPresent IsReading) some (λ x r. r) none tt

pub exit_code-IsNatural :
    (value : Value) (name : String)
    → Ensures (IfPresent IsNatural) (number (λ x. some (trunc x)) none value name)
exit_code-IsNatural =
    number-valid (IfPresent IsNatural) (λ x. some (trunc x)) trunc-IsNatural none tt

module _ {A : Type 0} (P : A → Type 0) where
  pub parse_each-All :
      (parse : Value → ℕ → Exc A)
      → ((value : Value) (index : ℕ) → Ensures P (parse value index))
      → (index : ℕ) (items : List Value)
      → Ensures (λ as'. All P as' × (length as' ≡ length items)) (parse_each parse index items)
  unfolding parse_each
  parse_each-All parse each index [] = Ensures-ok _ [] (tt, refl)
  parse_each-All parse each index (item ∷ items) = Ensures-bind (each item index) λ a ha.
      Ensures-bind (parse_each-All parse each (index + 1) items)
        λ rest hr. Ensures-ok _ (a ∷ rest) ((ha, hr.0), omega (arith, hr.1))

  pub unless_null-IfPresent :
      (parse : Value → Exc A)
      → ((value : Value) → Ensures P (parse value))
      → (value : Value) → Ensures (IfPresent P) (unless_null parse value)
  unfolding unless_null
  unless_null-IfPresent parse h null = Ensures-ok (IfPresent P) none tt
  unless_null-IfPresent parse h (bool b) =
      Ensures-bind (h (bool b)) λ a ha. Ensures-ok (IfPresent P) (some a) ha
  unless_null-IfPresent parse h value =
      Ensures-bind (h _) λ a ha. Ensures-ok (IfPresent P) (some a) ha

pub bounded_list-bound :
    (limit : ℕ) (code : String) (value : Value)
    → Ensures (λ items. length items ≤ limit) (bounded_list limit code value)
unfolding bounded_list
bounded_list-bound limit code (list items) = record { at = λ a e. ground arith }
bounded_list-bound limit code _ = Ensures-err _ _
