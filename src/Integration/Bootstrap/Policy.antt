-- ===== src/Integration/Bootstrap/Policy.antt =====
-- What `_install_sudoers` asks of the host, and in which order.
use ha_pi_manager_integratio.Prelude.{
  cons_named, String, ◌==◌, ◌≡◌, ap, ◌∙◌, Bool-cases, inl, inr, true, false, List, [], ◌∷◌, ◌++◌,
  ok, err, arith, if◌then◌else◌,
}
use ha_pi_manager_integratio.Prelude.Exec.{◌>>=◌, unless}
use ha_pi_manager_integratio.Errors.{PyError, bootstrap}
use ha_pi_manager_integratio.Integration.Ssh.Client.{
  Client, Transfer, Outcome, transfer, later_transfers, upload_text, carried, first_outcome,
  later_outcomes,
}
use ha_pi_manager_integratio.Integration.Bootstrap.Session.{
  Library, Session, on_client, token, first_token, later_tokens, add_temporary,
}
use ha_pi_manager_integratio.Integration.Bootstrap.Install.{
  sudo, activate_policy, unstage, stage_policy, install_sudoers, remote_sudoers_path, checked,
  policy_upload, policy_staging,
}
use ha_pi_manager_integratio.Integration.Bootstrap.Commands.{
  succeeds, log_all, answered, answered_all, answered_all-sent, answered_all-uploads, entries,
  sudo-eq, >>=-ok, >>=-err, checked-good, checked-bad,
}

abbrev stage_args : String → String → List String
stage_args temporary path =
    "/usr/bin/install" ∷ "-D" ∷ "-o" ∷ "root" ∷ "-g" ∷ "root" ∷ "-m" ∷ "0440" ∷ temporary ∷ path
    ∷ []

abbrev visudo_args : String → List String
visudo_args path = "/usr/sbin/visudo" ∷ "-cf" ∷ path ∷ []

abbrev move_args : String → List String
move_args path = "/bin/mv" ∷ path ∷ remote_sudoers_path ∷ []

abbrev remove_args : String → List String
remove_args path = "/bin/rm" ∷ "-f" ∷ path ∷ []

-- The commands that the host must see, by the way the first ones end: the policy is staged under
-- another name, then checked, then moved to its place, and removed where one of these fails.
unfoldable pub expected_commands : String → String → List Outcome → List (List String)
expected_commands temporary path outcomes =
    let staged = succeeds (first_outcome outcomes) in
    let valid = succeeds (first_outcome (later_outcomes outcomes)) in
    let moved = succeeds (first_outcome (later_outcomes (later_outcomes outcomes))) in
    if staged
    then (if valid
        then (if moved
            then stage_args temporary path ∷ visudo_args path ∷ move_args path ∷ []
            else stage_args temporary path
              ∷ visudo_args path
              ∷ move_args path
              ∷ remove_args path
              ∷ [])
        else stage_args temporary path ∷ visudo_args path ∷ remove_args path ∷ [])
    else stage_args temporary path ∷ remove_args path ∷ []

abbrev uploaded_policy : String → Session → Session
uploaded_policy content s =
    let path = policy_upload (first_token s.tokens) in
    record s {
      client = record s.client {
        uploads = s.client.uploads ++ ((path, content, 384) ∷ []);
        transfers = later_transfers s.client.transfers;
      };
      tokens = later_tokens (later_tokens s.tokens);
      temporary_paths = s.temporary_paths ++ (path ∷ []);
    }

module _ (library : Library) (password temporary path : String) (s : Session)
    (connected : s.client.connected ≡ true) (named : (password == "") ≡ false)
    (t : (temporary == "") ≡ false) (v : (path == "") ≡ false) where
  abbrev staged_client : Client
  staged_client = answered password (stage_args temporary path) s.client

  abbrev checked_client : Client
  checked_client = answered password (visudo_args path) staged_client

  abbrev moved_client : Client
  moved_client = answered password (move_args path) checked_client

  activate_policy-unstaged :
      succeeds (first_outcome s.client.outcomes) ≡ false
      → (x : PyError) × (activate_policy library password temporary path s
          ≡ (err x, record s { client = staged_client }))
  unfolding activate_policy
  activate_policy-unstaged h =
      let (x, p) =
        checked-bad library _ password (stage_args temporary path) s connected named (ground arith)
          h in
      (x, >>=-err _ _ p)

  activate_policy-invalid :
      succeeds (first_outcome s.client.outcomes) ≡ true
      → succeeds (first_outcome (later_outcomes s.client.outcomes)) ≡ false
      → (x : PyError) × (activate_policy library password temporary path s
          ≡ (err x, record s { client = checked_client }))
  unfolding activate_policy
  activate_policy-invalid h1 h2 =
      let (x, p) =
        checked-bad library _ password (visudo_args path) (record s { client = staged_client })
          connected named (ground arith) h2 in
      (
        x,
        >>=-ok _ _ (
              checked-good library _ password (stage_args temporary path) s connected named
                (ground arith) h1)
            ∙ >>=-err _ _ p,
      )

  -- The last command decides, behind two that went well.
  activate_policy-last :
      succeeds (first_outcome s.client.outcomes) ≡ true
      → succeeds (first_outcome (later_outcomes s.client.outcomes)) ≡ true
      → activate_policy library password temporary path s
        ≡ checked
            (bootstrap "sudoers_activate" "The restricted sudo policy could not be activated")
            (sudo library password (move_args path))
            (record s { client = checked_client })
  unfolding activate_policy
  activate_policy-last h1 h2 =
      >>=-ok _ _ (
        checked-good library _ password (stage_args temporary path) s connected named (ground arith)
          h1)
      ∙ >>=-ok _ _ (
          checked-good library _ password (visudo_args path) (record s { client = staged_client })
            connected named (ground arith) h2)

  activate_policy-unmoved :
      succeeds (first_outcome s.client.outcomes) ≡ true
      → succeeds (first_outcome (later_outcomes s.client.outcomes)) ≡ true
      → succeeds (first_outcome (later_outcomes (later_outcomes s.client.outcomes))) ≡ false
      → (x : PyError) × (activate_policy library password temporary path s
          ≡ (err x, record s { client = moved_client }))
  activate_policy-unmoved h1 h2 h3 =
      let (x, p) =
        checked-bad library _ password (move_args path) (record s { client = checked_client })
          connected named (ground arith) h3 in
      (x, activate_policy-last h1 h2 ∙ p)

  activate_policy-moved :
      succeeds (first_outcome s.client.outcomes) ≡ true
      → succeeds (first_outcome (later_outcomes s.client.outcomes)) ≡ true
      → succeeds (first_outcome (later_outcomes (later_outcomes s.client.outcomes))) ≡ true
      → activate_policy library password temporary path s
        ≡ (ok tt, record s { client = moved_client })
  activate_policy-moved h1 h2 h3 =
      activate_policy-last h1 h2
      ∙ checked-good library _ password (move_args path) (record s { client = checked_client })
          connected named (ground arith) h3

  removed :
      (c : Client)
      → c.connected ≡ true
      → (sudo library password (remove_args path) (record s { client = c })).1
        ≡ record s { client = answered password (remove_args path) c }
  removed c h =
      ap (λ r. r.1)
        (sudo-eq library password (remove_args path) (record s { client = c }) h named
          (ground arith))

  stage_policy-answered :
      (stage_policy library password temporary path s).1.client
      ≡ answered_all password (expected_commands temporary path s.client.outcomes) s.client
  unfolding stage_policy unstage expected_commands
  stage_policy-answered = elim (Bool-cases (succeeds (first_outcome s.client.outcomes))) [
    | inr h1 ↦
        let (x, p) = activate_policy-unstaged h1 in
        ground (arith, h1, p, removed staged_client connected)
    | inl h1 ↦ elim (Bool-cases (succeeds (first_outcome (later_outcomes s.client.outcomes)))) [
      | inr h2 ↦
          let (x, p) = activate_policy-invalid h1 h2 in
          ground (arith, h1, h2, p, removed checked_client connected)
      | inl h2 ↦
          elim (Bool-cases
            (succeeds (first_outcome (later_outcomes (later_outcomes s.client.outcomes))))) [
              | inr h3 ↦
                  let (x, p) = activate_policy-unmoved h1 h2 h3 in
                  ground (arith, h1, h2, h3, p, removed moved_client connected)
              | inl h3 ↦ ground (arith, h1, h2, h3, activate_policy-moved h1 h2 h3)
            ]
    ]
  ]

-- What is sent and uploaded for a policy
pub record PolicyIsGuarded (library : Library) (password content : String) (s : Session)
    : Type 0 where
  pub commands :
      (install_sudoers library password content s).1.client.sent
      ≡ log_all s.client.sent (
          entries password (
            expected_commands
              (policy_upload (first_token s.tokens))
              (policy_staging (first_token (later_tokens s.tokens)))
              s.client.outcomes))
  pub uploaded :
      (install_sudoers library password content s).1.client.uploads
      ≡ s.client.uploads ++ ((policy_upload (first_token s.tokens), content, 384) ∷ [])

paths_named :
    (name : String) → ((policy_upload name == "") ≡ false) × ((policy_staging name == "") ≡ false)
unfolding policy_upload policy_staging
paths_named name = (cons_named _ _, cons_named _ _)

upload_text-eq :
    (path content : String) (rest : List Transfer) (s : Session)
    → s.client.connected ≡ true
    → s.client.transfers ≡ carried ∷ rest
    → on_client (upload_text path content 384) s ≡ (
      ok tt,
      record s {
        client = record s.client {
          uploads = s.client.uploads ++ ((path, content, 384) ∷ []);
          transfers = later_transfers s.client.transfers;
        };
      },
    )
unfolding upload_text transfer on_client unless ◌>>=◌
upload_text-eq path content rest s connected sent = ground arith

install_sudoers-eq :
    (library : Library) (password content : String) (rest : List Transfer) (s : Session)
    → s.client.connected ≡ true
    → s.client.transfers ≡ carried ∷ rest
    → install_sudoers library password content s
      ≡ stage_policy library password
          (policy_upload (first_token s.tokens))
          (policy_staging (first_token (later_tokens s.tokens)))
          (uploaded_policy content s)
unfolding install_sudoers token add_temporary ◌>>=◌
install_sudoers-eq library password content rest s connected sent =
    let t = policy_upload (first_token s.tokens) in
    let v = policy_staging (first_token (later_tokens s.tokens)) in
    let named = record s {
      tokens = later_tokens (later_tokens s.tokens);
      temporary_paths = s.temporary_paths ++ (t ∷ []);
    } in
    >>=-ok {s = named} (on_client (upload_text t content 384))
      (λ _. stage_policy library password t v) (upload_text-eq t content rest named connected sent)

-- Over an open connection, with a password, if the upload works, the host sees exactly the expected
-- commands: the policy takes its place only behind a check of the same file that works, and its other
-- name is removed where a command fails.
pub install_sudoers-PolicyIsGuarded :
    (library : Library) (password content : String) (rest : List Transfer) (s : Session)
    → s.client.connected ≡ true
    → (password == "") ≡ false
    → s.client.transfers ≡ carried ∷ rest
    → PolicyIsGuarded library password content s
install_sudoers-PolicyIsGuarded library password content rest s connected named sent =
    let t = policy_upload (first_token s.tokens) in
    let v = policy_staging (first_token (later_tokens s.tokens)) in
    let s1 = uploaded_policy content s in
    let whole =
      ap (λ r. r.1.client) (install_sudoers-eq library password content rest s connected sent)
      ∙ stage_policy-answered library password t v s1 connected named
          (paths_named (first_token s.tokens)).0
          (paths_named (first_token (later_tokens s.tokens))).1 in
    let commands = expected_commands t v s.client.outcomes in
    record {
      commands = ap (λ (c : Client). c.sent) whole ∙ answered_all-sent password commands s1.client;
      uploaded =
          ap (λ (c : Client). c.uploads) whole ∙ answered_all-uploads password commands s1.client;
    }
