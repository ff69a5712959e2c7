-- ===== src/Agent/Sudoers.antt =====
-- The sudo policy: `_validate_sudoers_policy`, `_policy_version`, `_decode_sudoers_policy` and
-- `_install_sudoers_policy`.
use ha_pi_manager_integratio.Prelude.{
  ℕ, suc, String, ◌<>◌, ◌==◌, Bool, true, false, ◌&&◌, not, Option, none, some, List, [], ◌∷◌, map,
  Result, ok, err, nat_eq, leb, ltb, length, keep_if, if◌then◌else◌, strip, splitlines,
  split_commas, partition, has_prefix, after_prefix,
}
use ha_pi_manager_integratio.Prelude.Exec.{◌>>=◌, ◌>>◌, lift, gets, unless}
use ha_pi_manager_integratio.Agent.Constants.{max_sudoers_bytes, sudoers_policy_commands}
use ha_pi_manager_integratio.Agent.Names.{matches_username, is_version}
use ha_pi_manager_integratio.Agent.World.{
  World, Agent, Failure, agent_error, succeeded, run, read_clock, ask, file_step, on_os_error,
  replace_sudoers,
}
use ha_pi_manager_integratio.Agent.Library.{Library}

abbrev pub policy_marker : String
policy_marker = "# Pi Manager sudo policy version: "

abbrev pub policy_prefix : String
policy_prefix = " ALL=(root) NOPASSWD: "

-- `xs.count(x)`
abbrev pub count_text : String → List String → ℕ
count_text x [] = 0
count_text x (y ∷ ys) = let rest = count_text x ys in if y == x then suc rest else rest

abbrev pub stripped_lines : String → List String
stripped_lines content = map strip (splitlines content)

-- `[line.strip() for line in … if line.strip().startswith("#")]`
abbrev pub comments_of : String → List String
comments_of content = keep_if (has_prefix "#") (stripped_lines content)

-- `[line.strip() for line in … if line.strip() and not line.lstrip().startswith("#")]`: a line
-- that is not blank begins alike with and without its white space at the end.
abbrev pub policy_lines_of : String → List String
policy_lines_of content =
    keep_if (λ line. not (line == "") && not (has_prefix "#" line)) (stripped_lines content)

-- `a == b` for two lists of texts
abbrev pub same_texts : List String → List String → Bool
same_texts [] [] = true
same_texts (x ∷ xs) (y ∷ ys) = (x == y) && same_texts xs ys
same_texts _ _ = false

-- The one policy line: a user name, the prefix and the commands.
unfoldable pub policy_line_valid : List String → Bool
policy_line_valid (line ∷ []) = elim (partition policy_prefix line) [
  | none ↦ false
  | some (username, command_text) ↦
      matches_username username && same_texts (split_commas command_text) sudoers_policy_commands
]
policy_line_valid _ = false

module _ (lib : Library) where
  unfoldable pub policy_valid : String → String → Bool
  unfolding policy_line_valid
  policy_valid content version =
      leb (length (lib.encode content)) max_sudoers_bytes
      && is_version version
      && nat_eq (count_text (policy_marker <> version) (comments_of content)) 1
      && policy_line_valid (policy_lines_of content)

  -- `_validate_sudoers_policy`: every test raises the same error.
  unfoldable pub validate_sudoers_policy : String → String → Result Failure (Unit {0})
  validate_sudoers_policy content version =
      if policy_valid content version then ok tt else err (agent_error "sudoers_policy_invalid")

  abbrev versions_in : List String → List String
  versions_in [] = []
  versions_in (line ∷ lines) =
      let rest = versions_in lines in
      elim (after_prefix policy_marker line) [
        | none ↦ rest
        | some version ↦ if is_version version then version ∷ rest else rest
      ]

  abbrev only_valid : String → List String → String
  only_valid content (version ∷ []) = if policy_valid content version then version else "unknown"
  only_valid content _ = "unknown"

  -- `_policy_version`; `_read_text` strips the file.
  unfoldable pub policy_version : World → String
  policy_version w =
      let content = strip w.sudoers_file in
      only_valid content (versions_in (stripped_lines content))

  abbrev checked_source : List ℕ → String → Option String → Result Failure (List ℕ × String)
  checked_source source version none = err (agent_error "sudoers_policy_invalid")
  checked_source source version (some text) =
      if policy_valid text version
      then ok (source, text)
      else err (agent_error "sudoers_policy_invalid")

  -- `_decode_sudoers_policy`: the bytes, and the text that they are
  unfoldable pub decode_sudoers_policy : String → String → Result Failure (List ℕ × String)
  decode_sudoers_policy encoded version = elim (lib.b64decode encoded) [
    | none ↦ err (agent_error "sudoers_policy_invalid")
    | some source ↦
        if ltb max_sudoers_bytes (length source)
        then err (agent_error "sudoers_policy_invalid")
        else checked_source source version (lib.decode source)
  ]

  abbrev temporary_policy : String → String
  temporary_policy name = "/etc/sudoers.d/.pi-manager." <> (name <> ".upgrade")

  -- From `mkstemp`, which picks the middle of the temporary file's name, to the final mode and owner. The
  -- new policy is in place only after `visudo` accepted it; a failure after `os.replace` leaves it there.
  unfoldable pub activate_policy : String → Agent Unit
  activate_policy content = do
    file_step
    name ← read_clock
    let temporary = temporary_policy name
    file_step
    result ← run ("/usr/sbin/visudo" ∷ "-cf" ∷ temporary ∷ [])
    unless (succeeded result) (agent_error "sudoers_validation_failed")
    linked ← ask
    unless (not linked) (agent_error "sudoers_target_invalid")
    file_step
    replace_sudoers content
    file_step

  -- `_install_sudoers_policy`
  unfoldable pub install_sudoers_policy : String → String → Agent Unit
  unfolding activate_policy
  install_sudoers_policy content version = do
    root ← gets (λ w. w.is_root)
    unless root (agent_error "sudoers_policy_requires_root")
    lift (validate_sudoers_policy content version)
    linked ← ask
    unless (not linked) (agent_error "sudoers_target_invalid")
    on_os_error "sudoers_write_failed" (activate_policy content)
