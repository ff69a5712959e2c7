-- ===== src/Integration/Ssh/Words.antt =====
-- `shlex.join`, by which `_run` encodes its arguments, and how a POSIX shell takes words apart.
use ha_pi_manager_integratio.Prelude.{
  String, ε, ◌▹◌, append, Char, Bool, ◌||◌, Option, none, some, List, [], ◌∷◌, is_char, is_alnum,
  char_in, all_chars, if◌then◌else◌,
}

-- `[A-Za-z0-9_@%+=:,./-]`: `shlex.quote` leaves a text of these alone.
abbrev pub is_safe : Char → Bool
is_safe c = is_alnum c || char_in "_@%+=:,./-" c

-- `s.replace("'", "'\"'\"'")`
unfoldable pub escape : String → String
escape ε = ε
escape (c ▹ s) =
    let rest = escape s in if is_char 39 c then "'" ▹ "\"" ▹ "'" ▹ "\"" ▹ "'" ▹ rest else c ▹ rest

-- `shlex.quote`
unfoldable pub quote : String → String
unfolding escape
quote ε = "''"
quote (c ▹ s) = if all_chars is_safe (c ▹ s) then c ▹ s else "'" ▹ append (escape (c ▹ s)) "'"

-- `shlex.join`
unfoldable pub join : List String → String
unfolding quote
join [] = ε
join (arg ∷ []) = quote arg
join (arg ∷ (next ∷ rest)) = append (quote arg) (" " ▹ join (next ∷ rest))

-- Where a shell stands: between words, in a bare part of a word, in single or in double quotes.
pub data Mode : Type 0 where
  between_words bare single double : Mode

abbrev pub prepend : Char → Option (List String) → Option (List String)
prepend c none = none
prepend c (some []) = none
prepend c (some (word ∷ words)) = some ((c ▹ word) ∷ words)

abbrev pub new_word : Option (List String) → Option (List String)
new_word none = none
new_word (some words) = some (ε ∷ words)

-- Words of safe characters and quoted parts. Anything that a shell would interpret has no words:
-- other bare characters, and `$`, a backquote, a backslash or `!` in double quotes.
unfoldable pub split : Mode → String → Option (List String)
split between_words ε = some []
split between_words (c ▹ s) =
    let skip = split between_words s in
    let open_single = split single s in
    let open_double = split double s in
    let open_bare = prepend c (split bare s) in
    if is_char 32 c
    then skip
    else if is_char 39 c
    then open_single
    else if is_char 34 c
    then open_double
    else if is_safe c
    then open_bare
    else none
split bare ε = some (ε ∷ [])
split bare (c ▹ s) =
    let close = new_word (split between_words s) in
    let open_single = split single s in
    let open_double = split double s in
    let more = prepend c (split bare s) in
    if is_char 32 c
    then close
    else if is_char 39 c
    then open_single
    else if is_char 34 c
    then open_double
    else if is_safe c
    then more
    else none
split single ε = none
split single (c ▹ s) =
    let close = split bare s in
    let more = prepend c (split single s) in if is_char 39 c then close else more
split double ε = none
split double (c ▹ s) =
    let close = split bare s in
    let more = prepend c (split double s) in
    if is_char 34 c then close else if char_in "$`\\!" c then none else more

-- The words of a command line
unfoldable pub shell_words : String → Option (List String)
unfolding split
shell_words line = split between_words line
