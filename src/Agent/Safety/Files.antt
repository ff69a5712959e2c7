-- ===== src/Agent/Safety/Files.antt =====
-- The helper, its launcher and the sudo policy are replaced only by a signed upgrade.
use ha_pi_manager_integratio.Prelude.{
  ℕ, String, ◌≡◌, ◌≢◌, ◌∙◌, refl, sym, ap, ◌⊎◌, inl, inr, true, Option, none, some, List, ok, arith,
  eq_iff, length,
}
use ha_pi_manager_integratio.Json.{Fields, end, get}
use ha_pi_manager_integratio.Prelude.Exec.{◌>>=◌, raise, lift}
use ha_pi_manager_integratio.Agent.World.{
  World, Document, run, read_clock, ask, file_step, store_state, store_config, store_trust,
  write_trust, load_trust, read_file, read_json, replace_agent, replace_ctl, replace_sudoers,
}
use ha_pi_manager_integratio.Agent.Library.{Library}
use ha_pi_manager_integratio.Agent.Sudoers.{decode_sudoers_policy}
use ha_pi_manager_integratio.Agent.Trust.{compare_digest}
use ha_pi_manager_integratio.Agent.Keeps.{
  Keeps, Keeps-pure, Keeps-bind, Keeps-bind_known, Keeps-bind-lift, Keeps-bind-unless,
}
use ha_pi_manager_integratio.Agent.Frame.Steps.{Steps, Replacements, load_trust-Keeps, frame_steps}
use ha_pi_manager_integratio.Agent.Frame.Trust.{configure_trust-Keeps}
use ha_pi_manager_integratio.Agent.Frame.Upgrade.{
  authorised_sources-Keeps, replace_files-Keeps, install_policy-Keeps,
}
use ha_pi_manager_integratio.Agent.Frame.All.{main-Keeps}
use ha_pi_manager_integratio.Agent.Upgrade.{
  Request, Sources, signed_message, policy_bytes, decode_policy, decode_sources, authorised_sources,
  secret_text, upgrade_helper,
}
use ha_pi_manager_integratio.Agent.Main.{Operation, upgrade_helper_op, reboot_op, handle, main}
use ha_pi_manager_integratio.Agent.Safety.Trust.{secret_in}

-- The policy that a request carries, decoded
abbrev pub policy_of : Library → Option String → Option (List ℕ)
policy_of lib none = none
policy_of lib (some encoded) = lib.b64decode encoded

-- The request is signed with the secret of the trust file: the sources and the policy that it
-- carries have the HMAC that it gives, under a secret of 32 bytes.
pub record Signed (lib : Library) (trust : Document) (request : Request) : Type 0 where
  pub secret : String
  pub key : List ℕ
  pub agent : List ℕ
  pub ctl : List ℕ
  pub installed : secret_in trust ≡ some secret
  pub key_decoded : lib.b64decode secret ≡ some key
  pub key_length : length key ≡ 32
  pub agent_decoded : lib.b64decode request.agent ≡ some agent
  pub ctl_decoded : lib.b64decode request.ctl ≡ some ctl
  pub genuine :
      lib.hmac_sha256 key
        (signed_message (lib.encode request.version) agent ctl (policy_of lib request.sudoers))
      ≡ request.signature

-- What the sources of an upgrade are
pub record SourcesOf (lib : Library) (request : Request) (secret : String) (s : Sources)
    : Type 0 where
  pub key_decoded : lib.b64decode secret ≡ some s.secret
  pub key_length : length s.secret ≡ 32
  pub agent_decoded : lib.b64decode request.agent ≡ some s.agent
  pub ctl_decoded : lib.b64decode request.ctl ≡ some s.ctl

decode_sources-SourcesOf :
    (lib : Library) (request : Request) (secret : String) (w : World) (s : Sources)
    → (decode_sources lib request secret w).0 ≡ ok s
    → SourcesOf lib request secret s
unfolding decode_sources ◌>>=◌
decode_sources-SourcesOf lib request secret w s h = ground arith

decode_policy-policy_of :
    (lib : Library) (request : Request) (policy : Option (List ℕ × String))
    → decode_policy lib request ≡ ok policy
    → policy_bytes lib policy ≡ policy_of lib request.sudoers
unfolding decode_sudoers_policy
decode_policy-policy_of lib request policy e = ground arith

-- The three files are those of `w₀`.
pub record SameFiles (w₀ w : World) : Type 0 where
  pub agent_file : w.agent_file ≡ w₀.agent_file
  pub ctl_file : w.ctl_file ≡ w₀.ctl_file
  pub sudoers_file : w.sudoers_file ≡ w₀.sudoers_file

module _ (w₀ : World) where
  same_steps : Steps (SameFiles w₀)
  unfolding run read_clock ask file_step store_state store_config
  same_steps = record {
    run_step = λ args a. record {
      at = λ w h. record {
        agent_file = h.agent_file;
        ctl_file = h.ctl_file;
        sudoers_file = h.sudoers_file;
      };
    };
    clock_step = record {
      at = λ w h. record {
        agent_file = h.agent_file;
        ctl_file = h.ctl_file;
        sudoers_file = h.sudoers_file;
      };
    };
    ask_step = record {
      at = λ w h. record {
        agent_file = h.agent_file;
        ctl_file = h.ctl_file;
        sudoers_file = h.sudoers_file;
      };
    };
    io_step = record {
      at = λ w h. record {
        agent_file = h.agent_file;
        ctl_file = h.ctl_file;
        sudoers_file = h.sudoers_file;
      };
    };
    read_step = λ w h. record {
      agent_file = h.agent_file;
      ctl_file = h.ctl_file;
      sudoers_file = h.sudoers_file;
    };
    state_step = λ value. record {
      at = λ w h. record {
        agent_file = h.agent_file;
        ctl_file = h.ctl_file;
        sudoers_file = h.sudoers_file;
      };
    };
    config_step = λ value. record {
      at = λ w h. record {
        agent_file = h.agent_file;
        ctl_file = h.ctl_file;
        sudoers_file = h.sudoers_file;
      };
    };
  }

  write_trust-SameFiles : (value : Fields) → Keeps (SameFiles w₀) (write_trust value)
  unfolding write_trust store_trust
  write_trust-SameFiles value = Keeps-bind _ _ same_steps.io_step λ _. record {
    at = λ w h. record {
      agent_file = h.agent_file;
      ctl_file = h.ctl_file;
      sudoers_file = h.sudoers_file;
    };
  }

  -- An operation other than an upgrade leaves the three files alone.
  main-SameFiles :
      (lib : Library) (operation : Operation)
      → ((request : Request) → operation ≢ upgrade_helper_op request)
      → Keeps (SameFiles w₀) (main lib operation)
  main-SameFiles lib operation other =
      main-Keeps lib same_steps operation
        (configure_trust-Keeps same_steps write_trust-SameFiles lib)
        λ request e. absurd (other request e)

module _ (lib : Library) (request : Request) (w₀ : World) where
  -- During an upgrade the trust file stays, and so do the files until the signature is checked.
  abbrev Guarded : World → Type 0
  Guarded w = (w.trust ≡ w₀.trust) × (SameFiles w₀ w ⊎ Signed lib w₀.trust request)

  keep_guard :
      {w v : World}
      → v.trust ≡ w.trust
      → v.agent_file ≡ w.agent_file
      → v.ctl_file ≡ w.ctl_file
      → v.sudoers_file ≡ w.sudoers_file
      → Guarded w
      → Guarded v
  keep_guard t a c s (h, inl same) = (
    t ∙ h,
    inl (record {
      agent_file = a ∙ same.agent_file;
      ctl_file = c ∙ same.ctl_file;
      sudoers_file = s ∙ same.sudoers_file;
    }),
  )
  keep_guard t a c s (h, inr signed) = (t ∙ h, inr signed)

  Guarded-steps : Steps Guarded
  unfolding run read_clock ask file_step store_state store_config
  Guarded-steps = record {
    run_step = λ args a. record { at = λ w h. keep_guard refl refl refl refl h };
    clock_step = record { at = λ w h. keep_guard refl refl refl refl h };
    ask_step = record { at = λ w h. keep_guard refl refl refl refl h };
    io_step = record { at = λ w h. keep_guard refl refl refl refl h };
    read_step = λ w h. keep_guard refl refl refl refl h;
    state_step = λ value. record { at = λ w h. keep_guard refl refl refl refl h };
    config_step = λ value. record { at = λ w h. keep_guard refl refl refl refl h };
  }

  Signed-replacements : Signed lib w₀.trust request → Replacements Guarded
  unfolding replace_agent replace_ctl replace_sudoers
  Signed-replacements signed = record {
    agent_step = λ source. record { at = λ w h. (h.0, inr signed) };
    ctl_step = λ source. record { at = λ w h. (h.0, inr signed) };
    sudoers_step = λ content. record { at = λ w h. (h.0, inr signed) };
  }

  -- The trust file that was read gave the secret.
  load_trust-secret_in :
      (w : World) (fields : Fields) (secret : String)
      → w.trust ≡ w₀.trust
      → (load_trust end w).0 ≡ ok fields
      → secret_text (get "hmac_secret" fields) ≡ some secret
      → secret_in w₀.trust ≡ some secret
  unfolding load_trust read_file read_json
  load_trust-secret_in w fields secret t e s = ground arith

  authorised :
      (o : Option String) (w : World) (s : Sources)
      → (authorised_sources lib request o w).0 ≡ ok s
      → (secret : String) × (o ≡ some secret) × SourcesOf lib request secret s
  unfolding raise
  authorised none w s e = absurd (ground arith)
  authorised (some secret) w s e = (secret, refl, decode_sources-SourcesOf lib request secret w s e)

  genuine-signature : (a b : String) → compare_digest a b ≡ ok true → a ≡ b
  unfolding compare_digest
  genuine-signature a b h = ground (arith, eq_iff a b)

  upgrade_helper-Guarded : Keeps Guarded (upgrade_helper lib request)
  unfolding upgrade_helper lift
  upgrade_helper-Guarded = Keeps-bind _ _ (search frame_steps) λ _.
      Keeps-bind_known _ _ (load_trust-Keeps Guarded-steps end) λ fields w h loaded.
        Keeps-bind_known _ _ (authorised_sources-Keeps Guarded-steps lib request _)
          λ sources v _ found. Keeps-bind_known _ _ (search frame_steps) λ policy u _ decoded.
            Keeps-bind-lift _ _ λ genuine digest. Keeps-bind-unless genuine _ _ λ g.
              let found_secret = authorised _ v sources found in
              let signed : Signed lib w₀.trust request = record {
                secret = found_secret.0;
                key = sources.secret;
                agent = sources.agent;
                ctl = sources.ctl;
                installed = load_trust-secret_in w fields found_secret.0 h.0 loaded found_secret.1;
                key_decoded = found_secret.2.key_decoded;
                key_length = found_secret.2.key_length;
                agent_decoded = found_secret.2.agent_decoded;
                ctl_decoded = found_secret.2.ctl_decoded;
                genuine =
                    ap
                      (λ p.
                        lib.hmac_sha256 sources.secret
                          (signed_message (lib.encode request.version) sources.agent sources.ctl p))
                      (sym (decode_policy-policy_of lib request policy decoded))
                    ∙ genuine-signature _ _ (digest ∙ ap ok g);
              } in
              let files = Signed-replacements signed in
              search
                (
                  frame_steps,
                  replace_files-Keeps Guarded-steps files,
                  install_policy-Keeps Guarded-steps files,
                )
                depth 8

  handle-Guarded : Keeps Guarded (main lib (upgrade_helper_op request))
  unfolding main handle
  handle-Guarded = record {
    at = λ w h. (Keeps-bind _ _ upgrade_helper-Guarded λ value. Keeps-pure _).at w h;
  }

  -- What an upgrade leaves: the files as they were, or a signed request.
  upgrade_files :
      SameFiles w₀ (main lib (upgrade_helper_op request) w₀).1 ⊎ Signed lib w₀.trust request
  upgrade_files =
      (handle-Guarded.at w₀
        (refl, inl (record { agent_file = refl; ctl_file = refl; sudoers_file = refl }))).1

same : (w : World) → SameFiles w w
same w = record { agent_file = refl; ctl_file = refl; sudoers_file = refl }

-- Whatever the operation: after a run of the helper the three files are as before it, or the
-- operation is an upgrade signed with the secret that the trust file held when the run began.
pub files_change-Signed :
    (lib : Library) (operation : Operation) (w : World)
    → SameFiles w (main lib operation w).1
      ⊎ ((request : Request) × (operation ≡ upgrade_helper_op request) × Signed lib w.trust request)
files_change-Signed lib (upgrade_helper_op request) w = elim (upgrade_files lib request w) [
  | inl unchanged ↦ inl unchanged
  | inr signed ↦ inr (request, refl, signed)
]
files_change-Signed lib reboot_op w =
    inl ((main-SameFiles w lib reboot_op (λ request e. cc e)).at w (same w))
files_change-Signed lib operation w =
    inl ((main-SameFiles w lib _ (λ request e. cc e)).at w (same w))
