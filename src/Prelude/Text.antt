-- ===== src/Prelude/Text.antt =====
-- The operations of Python's `str` that the program uses, over the native texts.
use Prim.Native.Nat.{ℕ, zero, suc, ◌+◌, ◌*◌, ◌/◌, ◌%◌}
use Prim.Native.Char.{Char, code}
use Prim.Native.String.{String, [] as ε, ◌∷◌ as ◌▹◌, ◌++◌ as ◌<>◌}
use mathlib.Core.Bool.{Bool, true, false, ◌&&◌, ◌||◌}
use mathlib.Core.Option.{Option, none, some}
use mathlib.Core.List.{List, [], ◌∷◌}
use mathlib.Core.Path.{◌≡◌, ap}
use mathlib.Core.Logic.{inl, inr}
use native.Mathlib.Omega.{arith}
use text.Mathlib.Text.{◌==◌}
use text.Mathlib.TextEquality.{eq_iff}
use ha_pi_manager_integratio.Prelude.Tests.{if◌then◌else◌, nat_eq, Bool-cases}
use ha_pi_manager_integratio.Prelude.Unicode.{is_space, is_line_end, decimal_value}

-- `len(s)`: the characters.
abbrev pub str_len : String → ℕ
str_len ε = 0
str_len (c ▹ s) = suc (str_len s)

-- `s + t`, by its clauses
abbrev pub append : String → String → String
append ε t = t
append (c ▹ s) t = c ▹ append s t

-- `s[:n]`
abbrev pub str_take : ℕ → String → String
str_take zero s = ε
str_take (suc n) ε = ε
str_take (suc n) (c ▹ s) = c ▹ str_take n s

abbrev pub all_chars : (Char → Bool) → String → Bool
all_chars p ε = true
all_chars p (c ▹ s) = p c && all_chars p s

abbrev pub any_char : (Char → Bool) → String → Bool
any_char p ε = false
any_char p (c ▹ s) = p c || any_char p s

abbrev pub is_char : ℕ → Char → Bool
is_char n c = nat_eq (code c) n

-- `c in t`, for one character
abbrev pub char_in : String → Char → Bool
char_in t c = any_char (is_char (code c)) t

-- What follows the prefix `p` of a text that begins with it.
abbrev pub after_prefix : String → String → Option String
after_prefix ε s = some s
after_prefix (c ▹ p) ε = none
after_prefix (c ▹ p) (d ▹ s) =
    let rest = after_prefix p s in if nat_eq (code c) (code d) then rest else none

-- `s.startswith(p)`
abbrev pub has_prefix : String → String → Bool
has_prefix p s = elim (after_prefix p s) [ none ↦ false | some _ ↦ true ]

-- `s.endswith(t)`
unfoldable pub has_suffix : String → String → Bool
has_suffix t ε = t == ε
has_suffix t (c ▹ s) = (t == (c ▹ s)) || has_suffix t s

-- `t in s`
unfoldable pub has_infix : String → String → Bool
has_infix t ε = has_prefix t ε
has_infix t (c ▹ s) = has_prefix t (c ▹ s) || has_infix t s

-- `s.partition(t)` for a nonempty `t`: what stands before and behind the first `t`, if there is one.
unfoldable pub partition : String → String → Option (String × String)
partition t ε = none
partition t (c ▹ s) =
    let rest : Option (String × String) = elim (partition t s) [
      | none ↦ none
      | some (a, b) ↦ some ((c ▹ a), b)
    ] in
    elim (after_prefix t (c ▹ s)) [ none ↦ rest | some b ↦ some (ε, b) ]

unfoldable pub lstrip : String → String
lstrip ε = ε
lstrip (c ▹ s) = let rest = lstrip s in if is_space c then rest else c ▹ s

-- `s.rstrip()`: a text of white space alone is empty.
unfoldable pub rstrip : String → String
rstrip ε = ε
rstrip (c ▹ s) = let rest = rstrip s in if is_space c && (rest == ε) then ε else c ▹ rest

-- `s.strip()`
unfoldable pub strip : String → String
unfolding lstrip rstrip
strip s = rstrip (lstrip s)

-- Puts a character in front of the first piece.
abbrev cons_first : Char → List String → List String
cons_first c [] = (c ▹ ε) ∷ []
cons_first c (s ∷ rest) = (c ▹ s) ∷ rest

-- `s.splitlines()`
unfoldable pub splitlines : String → List String
splitlines ε = []
splitlines (c ▹ ε) = if is_line_end c then ε ∷ [] else (c ▹ ε) ∷ []
splitlines (c ▹ (d ▹ s)) =
    let rest = splitlines (d ▹ s) in
    if is_char 13 c && is_char 10 d
    then rest
    else if is_line_end c
    then ε ∷ rest
    else cons_first c rest

-- `s.split(", ")`, always at least one piece
unfoldable pub split_commas : String → List String
split_commas ε = ε ∷ []
split_commas (c ▹ ε) = (c ▹ ε) ∷ []
split_commas (c ▹ (d ▹ s)) =
    let behind : List String = ε ∷ split_commas s in
    let rest : List String = cons_first c (split_commas (d ▹ s)) in
    if is_char b',' c && is_char b' ' d then behind else rest

-- `s.isdigit()` where `int(s)` is then taken; the digits of a nonempty text.
decimal_from : ℕ → String → Option ℕ
decimal_from n ε = some n
decimal_from n (c ▹ s) = elim (decimal_value c) [
  | none ↦ none
  | some d ↦ decimal_from (n * 10 + d) s
]

-- `int(s)` for a text of decimal digits, with no sign, space or underscore
unfoldable pub decimal : String → Option ℕ
unfolding decimal_from
decimal ε = none
decimal (c ▹ s) = decimal_from 0 (c ▹ s)

digit_text : ℕ → String
digit_text zero = "0"
digit_text (suc zero) = "1"
digit_text (suc (suc zero)) = "2"
digit_text (suc (suc (suc zero))) = "3"
digit_text (suc (suc (suc (suc zero)))) = "4"
digit_text (suc (suc (suc (suc (suc zero))))) = "5"
digit_text (suc (suc (suc (suc (suc (suc zero)))))) = "6"
digit_text (suc (suc (suc (suc (suc (suc (suc zero))))))) = "7"
digit_text (suc (suc (suc (suc (suc (suc (suc (suc zero)))))))) = "8"
digit_text _ = "9"

-- `str(n)`: there are at most `n + 1` digits.
show_from : ℕ → ℕ → String → String
show_from zero n acc = acc
show_from (suc fuel) n acc =
    let text : String = digit_text (n % 10) <> acc in
    let more : String = show_from fuel (n / 10) text in if nat_eq (n / 10) 0 then text else more

unfoldable pub show_nat : ℕ → String
unfolding digit_text show_from
show_nat n = show_from (suc n) n ε

-- `s.split()`: the words between white space.
abbrev begin_word : Char → List String → List String
begin_word c words = (c ▹ ε) ∷ words

abbrev extend_word : Char → List String → List String
extend_word c [] = (c ▹ ε) ∷ []
extend_word c (word ∷ words) = (c ▹ word) ∷ words

abbrev starts_space : String → Bool
starts_space ε = true
starts_space (c ▹ s) = is_space c

unfoldable pub split_words : String → List String
unfolding is_space
split_words ε = []
split_words (c ▹ s) =
    let words = split_words s in
    if is_space c then words else if starts_space s then begin_word c words else extend_word c words

abbrev extend_part : Char → List String → List String
extend_part c [] = (c ▹ ε) ∷ []
extend_part c (part ∷ parts) = (c ▹ part) ∷ parts

-- `s.split(",")`
unfoldable pub comma_parts : String → List String
comma_parts ε = ε ∷ []
comma_parts (c ▹ s) =
    let parts = comma_parts s in if is_char b',' c then ε ∷ parts else extend_part c parts

-- A text with a character is not empty.
pub cons_named : (c : Char) (s : String) → ((c ▹ s) == ε) ≡ false
cons_named c s = elim (Bool-cases ((c ▹ s) == ε)) [
  | inr h ↦ h
  | inl h ↦
      let p : (c ▹ s) ≡ ε = ground (arith, eq_iff (c ▹ s) ε) in
      let q : suc (str_len s) ≡ 0 = ap str_len p in absurd (omega arith)
]

pub prefixed_named : (c : Char) (p s : String) → has_prefix (c ▹ p) s ≡ true → (s == ε) ≡ false
prefixed_named c p ε h = absurd (cc)
prefixed_named c p (d ▹ s) h = cons_named d s
