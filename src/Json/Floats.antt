-- ===== src/Json/Floats.antt =====
-- Python's `float`, an IEEE 754 binary64 number: what the program does with one is to convert an
-- `int`, to test that it is finite and not negative, and to truncate it to an `int`.
use Prim.Native.Nat.{◌/◌, ◌%◌}
use native.Mathlib.Nat.{zero-mul, zero-div}
use ha_pi_manager_integratio.Prelude.{
  ℕ, zero, suc, ◌+◌, ◌-◌, ◌*◌, ◌^◌, ◌≤◌, ◌≡◌, refl, ℤ, pos, negsuc, Bool, true, false, not, ◌&&◌,
  ◌||◌, Option, none, some, nat_eq, ltb, leb, if◌then◌else◌, arith,
}

-- `finite s m e` is m * 2^e, negated if `s`.
pub data Float : Type 0 where
  nan : Float
  infinite : Bool → Float
  finite : Bool → ℕ → ℤ → Float

abbrev pub float_zero : Float
float_zero = finite false 0 (pos 0)

-- `int.bit_length`, on fuel: the number itself is enough.
bits : ℕ → ℕ → ℕ
bits zero n = 0
bits (suc fuel) n = let more : ℕ = suc (bits fuel (n / 2)) in if nat_eq n 0 then 0 else more

unfoldable pub bit_length : ℕ → ℕ
unfolding bits
bit_length n = bits n n

-- Rounds to the nearest multiple of `unit`, ties to an even quotient.
round_quotient : ℕ → ℕ → ℕ
round_quotient n unit =
    let q : ℕ = n / unit in
    let r : ℕ = n % unit in
    if ltb (2 * r) unit
    then q
    else if ltb unit (2 * r)
    then q + 1
    else if nat_eq (q % 2) 0
    then q
    else q + 1

abbrev two_53 : ℕ
two_53 = 9007199254740992

-- The value of a float whose exponent is not negative; a fraction is cut off.
abbrev pub magnitude : ℕ → ℤ → ℕ
magnitude m (pos e) = m * 2 ^ e
magnitude m (negsuc e) = m / 2 ^ suc e

-- A number of more than 53 bits is rounded to 53, and is an `OverflowError` from 2^1024 on.
round_large : ℕ → Option (ℕ × ℕ)
unfolding bit_length round_quotient
round_large n =
    let shift : ℕ = bit_length n - 53 in
    let m : ℕ = round_quotient n (2 ^ shift) in
    if leb (2 ^ 1024) (m * 2 ^ shift) then none else some (m, shift)

abbrev of_nat : Bool → ℕ → Option Float
of_nat sign n =
    let large : Option Float = elim (round_large n) [
      | none ↦ none
      | some (m, e) ↦ some (finite sign m (pos e))
    ] in
    if leb n two_53 then some (finite sign n (pos 0)) else large

-- `float(n)` for an `int`; `none` is the `OverflowError`.
unfoldable pub of_int : ℤ → Option Float
unfolding round_large
of_int (pos n) = of_nat false n
of_int (negsuc n) = of_nat true (suc n)

-- `math.isfinite(x)`
unfoldable pub is_finite : Float → Bool
is_finite nan = false
is_finite (infinite s) = false
is_finite (finite s m e) = true

-- `x < 0`; minus zero is not.
unfoldable pub is_negative : Float → Bool
is_negative nan = false
is_negative (infinite s) = s
is_negative (finite s m e) = s && not (nat_eq m 0)

-- `int(x)` for a finite `x`
unfoldable pub trunc : Float → ℤ
trunc (finite true m e) =
    let size : ℕ = magnitude m e in if nat_eq size 0 then pos 0 else negsuc (size - 1)
trunc (finite false m e) = pos (magnitude m e)
trunc _ = pos 0

-- `x == n`
unfoldable pub equals_nat : Float → ℕ → Bool
equals_nat nan n = false
equals_nat (infinite s) n = false
equals_nat (finite s m (pos e)) n = nat_eq (m * 2 ^ e) n && (not s || nat_eq m 0)
equals_nat (finite s m (negsuc e)) n = nat_eq m (n * 2 ^ suc e) && (not s || nat_eq m 0)

-- The float of a natural number is finite and not negative, when there is one.
pub of_int_range :
    (n : ℕ) {x : Float} → of_int (pos n) ≡ some x → (is_finite x ≡ true) × (is_negative x ≡ false)
unfolding of_int is_finite is_negative
of_int_range n h = ground arith

-- Up to 2^53 the conversion is exact.
pub of_int_exact : (n : ℕ) → n ≤ 9007199254740992 → of_int (pos n) ≡ some (finite false n (pos 0))
unfolding of_int
of_int_exact n h = ground arith

-- A float that passed the tests truncates to a natural number.
pub trunc_pos :
    (x : Float) → is_finite x ≡ true → is_negative x ≡ false → (n : ℕ) × (trunc x ≡ pos n)
unfolding trunc is_finite is_negative
trunc_pos nan f s = cc
trunc_pos (infinite b) f s = cc
trunc_pos (finite true zero (pos e)) f s = (0, rw zero-mul)
trunc_pos (finite true zero (negsuc e)) f s = (0, rw zero-div)
trunc_pos (finite true (suc m) e) f s = absurd (ground arith)
trunc_pos (finite false m e) f s = (magnitude m e, refl)
