-- ===== src/Agent/Maintenance/Counts.antt =====
-- The numbers of an apt transcript: `_apt_counts`, `_security_count` and the search of
-- `_check_updates`.
use ha_pi_manager_integratio.Prelude.{
  ℕ, suc, ◌+◌, String, ε, ◌▹◌, code, Bool, true, false, ◌&&◌, ◌||◌, nat_eq, Option, none, some,
  List, [], ◌∷◌, if◌then◌else◌, is_space, is_decimal, decimal, splitlines, has_prefix, after_prefix,
}

-- The digits at the front, and the rest: `(\d+)` where at least one is there.
abbrev digits_front : String → String × String
digits_front ε = (ε, ε)
digits_front (c ▹ s) =
    let (digits, rest) = digits_front s in
    if is_decimal c then ((c ▹ digits), rest) else (ε, (c ▹ s))

abbrev skip_spaces : String → String
skip_spaces ε = ε
skip_spaces (c ▹ s) = let rest = skip_spaces s in if is_space c then rest else c ▹ s

-- `\s+`
abbrev spaces_then : String → Option String
spaces_then ε = none
spaces_then (c ▹ s) = if is_space c then some (skip_spaces s) else none

abbrev bind : {A B : Type 0} → Option A → (A → Option B) → Option B
bind none f = none
bind (some a) f = f a

-- `(\d+)\s+word`: the number, and what follows the word
unfoldable pub count_word : String → String → Option (ℕ × String)
count_word word text =
    let (digits, rest) = digits_front text in
    bind (decimal digits) λ n.
      bind (spaces_then rest) λ after. bind (after_prefix word after) λ behind. some (n, behind)

-- The expression of `_apt_counts` at the front of a text
unfoldable pub counts_here : String → Option (ℕ × ℕ × ℕ × ℕ)
unfolding count_word
counts_here text = bind (count_word "upgraded," text) λ (upgraded, a). bind (spaces_then a) λ b.
    bind (count_word "newly installed," b) λ (newly_installed, c). bind (spaces_then c) λ d.
      bind (count_word "to remove" d) λ (to_remove, e). bind (spaces_then e) λ f.
        bind (after_prefix "and" f) λ g. bind (spaces_then g) λ h.
          bind (count_word "not upgraded" h)
            λ (not_upgraded, _). some (upgraded, newly_installed, to_remove, not_upgraded)

-- `re.search`: the first place where the expression matches
abbrev search_from : {A : Type 0} → (String → Option A) → String → Option A
search_from here ε = here ε
search_from here (c ▹ s) =
    let later = search_from here s in elim (here (c ▹ s)) [ none ↦ later | some a ↦ some a ]

abbrev count_lines : (String → Bool) → List String → ℕ
count_lines test [] = 0
count_lines test (line ∷ lines) =
    let rest = count_lines test lines in if test line then suc rest else rest

unfoldable pub apt_counts : String → ℕ × ℕ × ℕ × ℕ
unfolding counts_here is_space is_decimal
apt_counts output = elim (search_from counts_here output) [
  | some counts ↦ counts
  | none ↦ (
    count_lines (has_prefix "Inst ") (splitlines output),
    0,
    count_lines (has_prefix "Remv ") (splitlines output),
    0,
  )
]

-- `(\d+) upgraded,` with one space
abbrev upgraded_here : String → Option ℕ
upgraded_here text =
    let (digits, rest) = digits_front text in
    bind (decimal digits) λ n. bind (after_prefix " upgraded," rest) λ _. some n

unfoldable pub available_count : String → ℕ
available_count output = elim (search_from upgraded_here output) [ none ↦ 0 | some n ↦ n ]

-- `c` is the lower case of `d`, for a small letter `c` of ASCII that no other character has for it
abbrev is_lower_of : ℕ → ℕ → Bool
is_lower_of c d = nat_eq d c || nat_eq (d + 32) c

-- `"security" in line.lower()`, letter by letter
abbrev lower_prefix : String → String → Bool
lower_prefix ε s = true
lower_prefix (c ▹ p) ε = false
lower_prefix (c ▹ p) (d ▹ s) = is_lower_of (code c) (code d) && lower_prefix p s

abbrev has_security : String → Bool
has_security ε = false
has_security (c ▹ s) = lower_prefix "security" (c ▹ s) || has_security s

unfoldable pub security_count : String → ℕ
security_count output =
    count_lines (λ line. has_security line && has_prefix "Inst " line) (splitlines output)
