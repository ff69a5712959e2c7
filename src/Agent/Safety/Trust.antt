-- ===== src/Agent/Safety/Trust.antt =====
-- The upgrade secret is installed once.
use ha_pi_manager_integratio.Prelude.{
  String, Bool, false, any, ◌≡◌, ◌⊎◌, inl, inr, refl, Option, none, some, List, [], ◌∷◌, arith,
}
use ha_pi_manager_integratio.Json.{str, dict, get}
use ha_pi_manager_integratio.Agent.World.{
  World, Document, json, read_json, run, read_clock, ask, file_step, store_state, store_config,
  load_trust, next_read, first_event, tail, read_file, replace_agent, replace_ctl, replace_sudoers,
}
use ha_pi_manager_integratio.Prelude.Exec.{◌>>=◌}
use ha_pi_manager_integratio.Agent.Library.{Library}
use ha_pi_manager_integratio.Agent.Keeps.{Keeps}
use ha_pi_manager_integratio.Agent.Frame.Steps.{Steps, Replacements}
use ha_pi_manager_integratio.Agent.Frame.Upgrade.{upgrade_helper-Keeps}
use ha_pi_manager_integratio.Agent.Frame.All.{main-Keeps}
use ha_pi_manager_integratio.Agent.Trust.{configure_trust, install_secret, compare_digest}
use ha_pi_manager_integratio.Agent.Main.{Operation, main}

-- The secret that a trust file holds
abbrev pub secret_in : Document → Option String
secret_in (json (dict fields)) = elim (get "hmac_secret" fields) [
  | str secret ↦ some secret
  | _ ↦ none
]
secret_in _ = none

-- Where no read fails, no later one does.
any-tail :
    (faults : List Bool)
    → any (λ fault. fault) faults ≡ false
    → any (λ fault. fault) (tail faults) ≡ false
any-tail [] h = refl
any-tail (fault ∷ faults) h = ground arith

any-first : (faults : List Bool) → any (λ fault. fault) faults ≡ false → first_event faults ≡ false
any-first [] h = refl
any-first (fault ∷ faults) h = ground arith

module _ (secret : String) where
  abbrev Trusts : World → Type 0
  Trusts w = (secret_in w.trust ≡ some secret) × (any (λ fault. fault) w.read_faults ≡ false)

  trust_steps : Steps Trusts
  unfolding run read_clock ask file_step store_state store_config
  trust_steps = record {
    run_step = λ args a. record { at = λ w h. h };
    clock_step = record { at = λ w h. h };
    ask_step = record { at = λ w h. h };
    io_step = record { at = λ w h. h };
    read_step = λ w h. (h.0, any-tail w.read_faults h.1);
    state_step = λ value. record { at = λ w h. h };
    config_step = λ value. record { at = λ w h. h };
  }

  trust_replacements : Replacements Trusts
  unfolding replace_agent replace_ctl replace_sudoers
  trust_replacements = record {
    agent_step = λ source. record { at = λ w h. h };
    ctl_step = λ source. record { at = λ w h. h };
    sudoers_step = λ content. record { at = λ w h. h };
  }

  -- With a secret in place, a `configure_trust` that can read it changes no file.
  configure_trust-same :
      (lib : Library) (offered : String) (w : World)
      → secret_in w.trust ≡ some secret
      → first_event w.read_faults ≡ false
      → ((configure_trust lib offered w).1 ≡ w) ⊎ ((configure_trust lib offered w).1 ≡ next_read w)
  unfolding configure_trust install_secret load_trust read_file read_json ◌>>=◌ compare_digest
  configure_trust-same lib offered w h works = ground arith

  configure_trust-Trusts :
      (lib : Library) (offered : String) → Keeps Trusts (configure_trust lib offered)
  configure_trust-Trusts lib offered = record {
    at = λ w h. elim (configure_trust-same lib offered w h.0 (any-first w.read_faults h.1)) [
      | inl same ↦ rw same h
      | inr read ↦ rw read (h.0, any-tail w.read_faults h.1)
    ];
  }

  main-Trusts : (lib : Library) (operation : Operation) → Keeps Trusts (main lib operation)
  main-Trusts lib operation =
      main-Keeps lib trust_steps operation (configure_trust-Trusts lib)
        (λ request _. upgrade_helper-Keeps trust_steps trust_replacements lib request)

-- The state of the host after a sequence of runs of the helper
unfoldable pub run_all : Library → List Operation → World → World
run_all lib [] w = w
run_all lib (operation ∷ rest) w = run_all lib rest (main lib operation w).1

run_all-Trusts :
    (lib : Library) (operations : List Operation) (w : World) (secret : String)
    → Trusts secret w
    → Trusts secret (run_all lib operations w)
unfolding run_all
run_all-Trusts lib [] w secret h = h
run_all-Trusts lib (operation ∷ rest) w secret h =
    run_all-Trusts lib rest (main lib operation w).1 secret
      ((main-Trusts secret lib operation).at w h)

-- Once the trust file holds a secret it holds the same secret after any sequence of operations,
-- whatever their arguments and whatever else fails on the way, if no reading of a JSON file fails.
pub secret_permanent :
    (lib : Library) (operations : List Operation) (w : World) (secret : String)
    → secret_in w.trust ≡ some secret
    → any (λ fault. fault) w.read_faults ≡ false
    → secret_in (run_all lib operations w).trust ≡ some secret
secret_permanent lib operations w secret held works =
    (run_all-Trusts lib operations w secret (held, works)).0
