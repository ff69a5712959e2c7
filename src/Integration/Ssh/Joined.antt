-- ===== src/Integration/Ssh/Joined.antt =====
-- A joined command has the arguments as its words.
use ha_pi_manager_integratio.Prelude.{
  String, ε, ◌▹◌, append, Char, ◌≡◌, refl, ap, sym, ◌∙◌, Bool, true, false, Option, some, List, [],
  ◌∷◌, arith, Bool-cases, inl, inr, is_char, all_chars, ◌&&◌,
}
use text.Mathlib.TextEquality.{Char-path}
use ha_pi_manager_integratio.Integration.Ssh.Words.{
  is_safe, escape, quote, join, between_words, bare, single, prepend, new_word, split, shell_words,
}

-- A safe character is none that ends or quotes a word.
safe-plain :
    (c : Char)
    → is_safe c ≡ true
    → (is_char 32 c ≡ false) × (is_char 39 c ≡ false) × (is_char 34 c ≡ false)
safe-plain c h = ground arith

and_left : (a b : Bool) → (a && b) ≡ true → a ≡ true
and_left a b h = ground (arith, h)

and_right : (a b : Bool) → (a && b) ≡ true → b ≡ true
and_right a b h = ground (arith, h)

-- Puts a text in front of the first word.
abbrev extend : String → Option (List String) → Option (List String)
extend ε words = words
extend (c ▹ s) words = prepend c (extend s words)

split-safe_char :
    (c : Char) (s : String) → is_safe c ≡ true → split bare (c ▹ s) ≡ prepend c (split bare s)
unfolding split
split-safe_char c s h = let (a, b, d) = safe-plain c h in rw a (rw b (rw d (rw h refl)))

split-safe_start :
    (c : Char) (s : String)
    → is_safe c ≡ true
    → split between_words (c ▹ s) ≡ prepend c (split bare s)
unfolding split
split-safe_start c s h = let (a, b, d) = safe-plain c h in rw a (rw b (rw d (rw h refl)))

split-safe :
    (s rest : String)
    → all_chars is_safe s ≡ true
    → split bare (append s rest) ≡ extend s (split bare rest)
split-safe ε rest h = refl
split-safe (c ▹ s) rest h =
    split-safe_char c (append s rest) (and_left (is_safe c) (all_chars is_safe s) h)
    ∙ ap (prepend c) (split-safe s rest (and_right (is_safe c) (all_chars is_safe s) h))

split-other :
    (c : Char) (s : String)
    → is_char 39 c ≡ false
    → split single (c ▹ s) ≡ prepend c (split single s)
unfolding split
split-other c s h = rw h refl

-- The text that stands for one quote closes, quotes it doubly, and opens again.
split-quote :
    (c : Char) (s : String)
    → is_char 39 c ≡ true
    → split single ("'" ▹ "\"" ▹ "'" ▹ "\"" ▹ "'" ▹ s) ≡ prepend c (split single s)
unfolding split
split-quote c s h =
    ap (λ (d : Char). prepend d (split single s)) (Char-path "'" c (ground (arith, h)))

escape-quote :
    (c : Char) (s : String)
    → is_char 39 c ≡ true
    → escape (c ▹ s) ≡ "'" ▹ "\"" ▹ "'" ▹ "\"" ▹ "'" ▹ escape s
unfolding escape
escape-quote c s h = rw h refl

escape-other : (c : Char) (s : String) → is_char 39 c ≡ false → escape (c ▹ s) ≡ c ▹ escape s
unfolding escape
escape-other c s h = rw h refl

-- Inside single quotes the escaped text stands for the text.
split-escape :
    (s rest : String) → split single (append (escape s) ("'" ▹ rest)) ≡ extend s (split bare rest)
unfolding escape split
split-escape ε rest = refl
split-escape (c ▹ s) rest = elim (Bool-cases (is_char 39 c)) [
  | inl q ↦
      ap (λ t. split single (append t ("'" ▹ rest))) (escape-quote c s q)
      ∙ split-quote c (append (escape s) ("'" ▹ rest)) q
      ∙ ap (prepend c) (split-escape s rest)
  | inr o ↦
      ap (λ t. split single (append t ("'" ▹ rest))) (escape-other c s o)
      ∙ split-other c (append (escape s) ("'" ▹ rest)) o
      ∙ ap (prepend c) (split-escape s rest)
]

append_assoc : (a b c : String) → append (append a b) c ≡ append a (append b c)
append_assoc ε b c = refl
append_assoc (x ▹ a) b c = ap (λ t. x ▹ t) (append_assoc a b c)

quote-plain : (c : Char) (s : String) → all_chars is_safe (c ▹ s) ≡ true → quote (c ▹ s) ≡ c ▹ s
unfolding quote
quote-plain c s h = rw h refl

quote-other :
    (c : Char) (s : String)
    → all_chars is_safe (c ▹ s) ≡ false
    → quote (c ▹ s) ≡ "'" ▹ append (escape (c ▹ s)) "'"
unfolding quote
quote-other c s h = rw h refl

split-open : (t : String) → split between_words ("'" ▹ t) ≡ split single t
unfolding split
split-open t = refl

split-empty : (rest : String) → split between_words (append (quote ε) rest) ≡ split bare rest
unfolding quote split
split-empty rest = refl

-- A quoted argument begins a word that is the argument.
split-quoted :
    (arg rest : String)
    → split between_words (append (quote arg) rest) ≡ extend arg (split bare rest)
split-quoted ε rest = split-empty rest
split-quoted (c ▹ s) rest = elim (Bool-cases (all_chars is_safe (c ▹ s))) [
  | inl plain ↦
      ap (λ t. split between_words (append t rest)) (quote-plain c s plain)
      ∙ split-safe_start c (append s rest) (and_left (is_safe c) (all_chars is_safe s) plain)
      ∙ ap (prepend c) (split-safe s rest (and_right (is_safe c) (all_chars is_safe s) plain))
  | inr other ↦
      ap (λ t. split between_words (append t rest)) (quote-other c s other)
      ∙ split-open (append (append (escape (c ▹ s)) "'") rest)
      ∙ ap (split single) (append_assoc (escape (c ▹ s)) "'" rest)
      ∙ split-escape (c ▹ s) rest
]

extend-word :
    (arg : String) (words : List String) → extend arg (some (ε ∷ words)) ≡ some (arg ∷ words)
extend-word ε words = refl
extend-word (c ▹ s) words = ap (prepend c) (extend-word s words)

append_nil : (s : String) → append s ε ≡ s
append_nil ε = refl
append_nil (c ▹ s) = ap (λ t. c ▹ t) (append_nil s)

split-end : split bare ε ≡ some (ε ∷ [])
unfolding split
split-end = refl

split-space : (s : String) → split bare (" " ▹ s) ≡ new_word (split between_words s)
unfolding split
split-space s = refl

-- A shell reads the command line that `shlex.join` makes as exactly the arguments.
pub shell_words-join : (args : List String) → shell_words (join args) ≡ some args
unfolding shell_words join
shell_words-join [] = refl
shell_words-join (arg ∷ []) =
    ap (split between_words) (sym (append_nil (quote arg)))
    ∙ split-quoted arg ε
    ∙ ap (extend arg) split-end
    ∙ extend-word arg []
shell_words-join (arg ∷ (next ∷ rest)) =
    split-quoted arg (" " ▹ join (next ∷ rest))
    ∙ ap (extend arg)
        (split-space (join (next ∷ rest)) ∙ ap new_word (shell_words-join (next ∷ rest)))
    ∙ extend-word arg (next ∷ rest)
