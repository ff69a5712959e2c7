-- ===== src/Prelude/Unicode.antt =====
-- The character classes of Python's `str` that the program uses: decimal digits (`\d` and `int`),
-- white space (`strip` and `split`) and the ends of lines (`splitlines`), by code point.
use Prim.Native.Nat.{ℕ, ◌+◌, ◌-◌}
use Prim.Native.Char.{Char, code}
use mathlib.Core.Bool.{Bool, true, false, ◌&&◌, ◌||◌}
use mathlib.Core.Option.{Option, none, some}
use mathlib.Core.List.{List, [], ◌∷◌}
use ha_pi_manager_integratio.Prelude.Tests.{leb, ltb, nat_eq, if◌then◌else◌}
use ha_pi_manager_integratio.Prelude.Lists.{any}

abbrev pub between : ℕ → ℕ → ℕ → Bool
between lo hi c = leb lo c && leb c hi

-- The zeros of the decimal digits (category Nd), which come in runs of ten.
abbrev decimal_zeros : List ℕ
decimal_zeros =
    0x30 ∷ 0x660 ∷ 0x6f0 ∷ 0x7c0 ∷ 0x966 ∷ 0x9e6 ∷ 0xa66 ∷ 0xae6 ∷ 0xb66 ∷ 0xbe6 ∷ 0xc66 ∷ 0xce6
    ∷ 0xd66 ∷ 0xde6 ∷ 0xe50 ∷ 0xed0 ∷ 0xf20 ∷ 0x1040 ∷ 0x1090 ∷ 0x17e0 ∷ 0x1810 ∷ 0x1946 ∷ 0x19d0
    ∷ 0x1a80 ∷ 0x1a90 ∷ 0x1b50 ∷ 0x1bb0 ∷ 0x1c40 ∷ 0x1c50 ∷ 0xa620 ∷ 0xa8d0 ∷ 0xa900 ∷ 0xa9d0
    ∷ 0xa9f0 ∷ 0xaa50 ∷ 0xabf0 ∷ 0xff10 ∷ 0x104a0 ∷ 0x10d30 ∷ 0x11066 ∷ 0x110f0 ∷ 0x11136 ∷ 0x111d0
    ∷ 0x112f0 ∷ 0x11450 ∷ 0x114d0 ∷ 0x11650 ∷ 0x116c0 ∷ 0x11730 ∷ 0x118e0 ∷ 0x11950 ∷ 0x11c50
    ∷ 0x11d50 ∷ 0x11da0 ∷ 0x16a60 ∷ 0x16ac0 ∷ 0x16b50 ∷ 0x1d7ce ∷ 0x1d7d8 ∷ 0x1d7e2 ∷ 0x1d7ec
    ∷ 0x1d7f6 ∷ 0x1e140 ∷ 0x1e2f0 ∷ 0x1e950 ∷ 0x1fbf0 ∷ []

-- The value of the first run that holds `c`.
decimal_in : List ℕ → ℕ → Option ℕ
decimal_in [] c = none
decimal_in (z ∷ zs) c =
    let rest = decimal_in zs c in if leb z c && ltb c (z + 10) then some (c - z) else rest

unfoldable pub decimal_value : Char → Option ℕ
unfolding decimal_in
decimal_value c = decimal_in decimal_zeros (code c)

unfoldable pub is_decimal : Char → Bool
unfolding decimal_value
is_decimal c = elim (decimal_value c) [ none ↦ false | some _ ↦ true ]

-- Superscripts and circled digits: `str.isdigit` accepts them, and `int` does not.
abbrev other_digits : List (ℕ × ℕ)
other_digits =
    (0xb2, 0xb3)
    ∷ (0xb9, 0xb9)
    ∷ (0x1369, 0x1371)
    ∷ (0x19da, 0x19da)
    ∷ (0x2070, 0x2070)
    ∷ (0x2074, 0x2079)
    ∷ (0x2080, 0x2089)
    ∷ (0x2460, 0x2468)
    ∷ (0x2474, 0x247c)
    ∷ (0x2488, 0x2490)
    ∷ (0x24ea, 0x24ea)
    ∷ (0x24f5, 0x24fd)
    ∷ (0x24ff, 0x24ff)
    ∷ (0x2776, 0x277e)
    ∷ (0x2780, 0x2788)
    ∷ (0x278a, 0x2792)
    ∷ (0x10a40, 0x10a43)
    ∷ (0x10e60, 0x10e68)
    ∷ (0x11052, 0x1105a)
    ∷ (0x1f100, 0x1f10a)
    ∷ []

in_ranges : List (ℕ × ℕ) → ℕ → Bool
in_ranges [] c = false
in_ranges ((lo, hi) ∷ rest) c = between lo hi c || in_ranges rest c

-- `c.isdigit()`
unfoldable pub is_digit : Char → Bool
unfolding in_ranges is_decimal
is_digit c = is_decimal c || in_ranges other_digits (code c)

abbrev spaces : List ℕ
spaces =
    0x9 ∷ 0xa ∷ 0xb ∷ 0xc ∷ 0xd ∷ 0x1c ∷ 0x1d ∷ 0x1e ∷ 0x1f ∷ 0x20 ∷ 0x85 ∷ 0xa0 ∷ 0x1680 ∷ 0x2000
    ∷ 0x2001 ∷ 0x2002 ∷ 0x2003 ∷ 0x2004 ∷ 0x2005 ∷ 0x2006 ∷ 0x2007 ∷ 0x2008 ∷ 0x2009 ∷ 0x200a
    ∷ 0x2028 ∷ 0x2029 ∷ 0x202f ∷ 0x205f ∷ 0x3000 ∷ []

unfoldable pub is_space : Char → Bool
is_space c = any (nat_eq (code c)) spaces

-- The line boundaries of `str.splitlines`; the pair `\r\n` counts once.
abbrev line_ends : List ℕ
line_ends = 0xa ∷ 0xb ∷ 0xc ∷ 0xd ∷ 0x1c ∷ 0x1d ∷ 0x1e ∷ 0x85 ∷ 0x2028 ∷ 0x2029 ∷ []

unfoldable pub is_line_end : Char → Bool
is_line_end c = any (nat_eq (code c)) line_ends

-- `[A-Za-z]`, `[0-9]`, `[A-Za-z0-9]`, `[a-f0-9]`, `[a-fA-F0-9]`
abbrev pub is_letter : Char → Bool
is_letter c = between b'A' b'Z' (code c) || between b'a' b'z' (code c)

abbrev pub is_ascii_digit : Char → Bool
is_ascii_digit c = between b'0' b'9' (code c)

abbrev pub is_alnum : Char → Bool
is_alnum c = is_letter c || is_ascii_digit c

abbrev pub is_lower_hex : Char → Bool
is_lower_hex c = between b'a' b'f' (code c) || is_ascii_digit c

abbrev pub is_hex : Char → Bool
is_hex c = between b'A' b'F' (code c) || is_lower_hex c
