-- ===== src/Tests/Texts.antt =====
-- Tests of the text functions.
use ha_pi_manager_integratio.Prelude.{
  ◌≡◌, refl, some, [], ◌∷◌, splitlines, is_line_end, split_commas, partition, strip, is_space,
  show_nat, decimal, decimal_value,
}

splitlines-mixed : splitlines "a\r\nb\n\nc" ≡ "a" ∷ "b" ∷ "" ∷ "c" ∷ []
unfolding splitlines is_line_end
splitlines-mixed = refl

split_commas-bare : split_commas "a, b,c, " ≡ "a" ∷ "b,c" ∷ "" ∷ []
unfolding split_commas
split_commas-bare = refl

partition-first : partition " = " "ab = c = d" ≡ some ("ab", "c = d")
unfolding partition
partition-first = refl

strip-both : strip "  ab c \t" ≡ "ab c"
unfolding strip is_space
strip-both = refl

show_nat-digits : show_nat 1250 ≡ "1250"
unfolding show_nat
show_nat-digits = refl

decimal-leading_zero : decimal "0127" ≡ some 127
unfolding decimal decimal_value
decimal-leading_zero = refl
