-- ===== src/Protocol/Texts.antt =====
-- The texts and the counts of a report.
use ha_pi_manager_integratio.Prelude.{
  ℕ, zero, suc, ◌≤◌, ◌≡◌, refl, ap, ◌∙◌, ℤ, pos, String, ε, ◌▹◌, Bool, true, false, Option, none,
  some, ok, err, str_len, str_take, arith,
}
use ha_pi_manager_integratio.Prelude.Results.{◌>>=◌}
use ha_pi_manager_integratio.Errors.{Exc, overflow_error}
use ha_pi_manager_integratio.Json.{Value, null, bool, int, str}
use ha_pi_manager_integratio.Json.Floats.{
  Float, finite, of_int, of_int_exact, of_int_range, is_finite, is_negative, trunc,
}
use ha_pi_manager_integratio.Contract.Fields.{string, optional_string, number, checked, boolean}
use ha_pi_manager_integratio.Contract.Parts.{count}
use ha_pi_manager_integratio.Agent.Maintenance.Public.{bounded_text, bounded_count}
use ha_pi_manager_integratio.Protocol.Accepts.{Accepts, Accepts-eq, Accepts-overflow}

pub str_len-str_take : (n : ℕ) (s : String) → str_len (str_take n s) ≤ n
str_len-str_take zero s = omega arith
str_len-str_take (suc n) ε = omega arith
str_len-str_take (suc n) (c ▹ s) = omega (arith, str_len-str_take n s)

-- What the integration reads of an optional text
abbrev pub shown_text : Value → Option String
shown_text (str text) = some (str_take 512 text)
shown_text _ = none

pub string-short :
    (text name default : String) → str_len text ≤ 4096 → string (str text) name default ≡ ok text
unfolding string
string-short text name default h = ground arith

pub optional_string-bounded_text :
    (v : Value) (name : String) → optional_string (bounded_text v) name ≡ ok (shown_text v)
unfolding optional_string bounded_text ◌>>=◌
optional_string-bounded_text (str text) name =
    ground (arith, str_len-str_take 512 text, string-short (str_take 512 text) name "")
optional_string-bounded_text null name = refl
optional_string-bounded_text _ name = refl

pub boolean-bool : (b : Bool) (name : String) → boolean (bool b) name ≡ ok b
unfolding boolean
boolean-bool b name = refl

-- The number that the helper reports for a count
abbrev pub count_value : Value → ℕ
count_value (int (pos n)) = n
count_value _ = 0

-- Up to 2^53 the integration reads the number itself.
pub record IsCountOf (v : Value) (read : ℤ) : Type 0 where
  pub exact : count_value v ≤ 9007199254740992 → read ≡ pos (count_value v)

trunc-nat : (n : ℕ) → trunc (finite false n (pos 0)) ≡ pos n
unfolding trunc
trunc-nat n = ap pos (omega arith)

abbrev float_or : Float → Option Float → Float
float_or x none = x
float_or x (some y) = y

checked_count :
    (n : ℕ) (name : String) (o : Option Float)
    → ((x : Float) → o ≡ some x → (is_finite x ≡ true) × (is_negative x ≡ false))
    → (n ≤ 9007199254740992 → o ≡ some (finite false n (pos 0)))
    → Accepts
        (λ m. n ≤ 9007199254740992 → m ≡ pos n)
        (elim o as (λ x. Exc ℤ) [ none ↦ err overflow_error | some x ↦ checked trunc x name ])
unfolding checked
checked_count n name none range exact = Accepts-overflow
checked_count n name (some x) range exact =
    Accepts-eq _ (trunc x) (let (f, g) = range x refl in rw (f, g) refl)
      (λ h. ap (λ o. trunc (float_or x o)) (exact h) ∙ trunc-nat n)

nat-Accepts :
    (n : ℕ) (name : String)
    → Accepts (λ m. n ≤ 9007199254740992 → m ≡ pos n) (count (int (pos n)) name)
unfolding number
nat-Accepts n name =
    checked_count n name (of_int (pos n)) (λ x e. of_int_range n e) (of_int_exact n)

bounded_count-int : (v : Value) → bounded_count v ≡ int (pos (count_value v))
unfolding bounded_count
bounded_count-int (int (pos n)) = refl
bounded_count-int _ = refl

-- A count that the helper bounded is read as a number, or overflows.
pub count-bounded_count :
    (v : Value) (name : String) → Accepts (IsCountOf v) (count (bounded_count v) name)
count-bounded_count v name = rw (bounded_count-int v) record {
  value = λ a e. record { exact = (nat-Accepts (count_value v) name).value a e };
  failure = (nat-Accepts (count_value v) name).failure;
}
