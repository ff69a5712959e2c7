-- ===== src/Agent/Configured.antt =====
-- What a successful `configure-services` leaves for the operations on services.
use ha_pi_manager_integratio.Prelude.{
  ◌≤◌, String, ◌==◌, ◌≡◌, refl, ap, sym, ◌∙◌, true, not, List, [], ◌∷◌, Result, ok, arith, all,
  length, leb,
}
use ha_pi_manager_integratio.Prelude.Results.{require, value_or, >>=-eq-ok}
use ha_pi_manager_integratio.Prelude.Exec.{continue, pure, lift}
use ha_pi_manager_integratio.Prelude.Exec
use ha_pi_manager_integratio.Json.{
  Value, str, list, dict, nil, Fields, end, elements, strings, get, get_or, set,
}
use ha_pi_manager_integratio.Json.Laws.{get-set_self, get-set_other}
use ha_pi_manager_integratio.Agent.Names.{service_name_valid}
use ha_pi_manager_integratio.Agent.World.{
  World, Agent, Failure, agent_error, json, file_step, write_config, store_config, load_config,
  read_file, read_json,
}
use ha_pi_manager_integratio.Agent.Library.{Library}
use ha_pi_manager_integratio.Agent.Services.{valid_services, read_config, iterate}
use ha_pi_manager_integratio.Agent.Config.{
  service_names, bounded_services, normalized_services, normalized_filter, apply_filters,
  filter_keys, updated_config, decode_configuration,
}
use ha_pi_manager_integratio.Agent.Post.{Post, Post-bind, Post-after}
use ha_pi_manager_integratio.Agent.Configure.{configure_services}
use ha_pi_manager_integratio.Agent.Distinct.{distinct, dedupe-distinct, dedupe-all, dedupe-length}

-- An allowlist as `configure-services` writes it
pub record Allowlist (services : List String) : Type 0 where
  pub names_valid : all service_name_valid services ≡ true
  pub names_distinct : distinct services ≡ true
  pub names_bounded : length services ≤ 128

service_names-valid :
    (items : List Value) (names : List String)
    → service_names items ≡ ok names
    → (all service_name_valid names ≡ true) × (length names ≤ length items)
unfolding service_names
service_names-valid [] names e = ground arith
service_names-valid (str name ∷ rest) names e =
    let (_, t, q) =
      >>=-eq-ok (require (service_name_valid name) (agent_error "service_invalid")) _ e in
    let (more, m, r) = >>=-eq-ok (service_names rest) _ q in
    ground (arith, service_names-valid rest more m)
service_names-valid (_ ∷ rest) names e = cc

pub bounded_services-Allowlist :
    (v : Value) (services : List String) → bounded_services v ≡ ok services → Allowlist services
unfolding bounded_services
bounded_services-Allowlist (list items) services e =
    let (_, t, q) =
      >>=-eq-ok (require (leb (length (elements items)) 128) (agent_error "service_config_invalid"))
        _ e in
    let (names, n, r) = >>=-eq-ok (service_names (elements items)) _ q in
    let (v, l) = service_names-valid (elements items) names n in
    record {
      names_valid = ground (arith, dedupe-all service_name_valid [] names refl v);
      names_distinct = ground (arith, dedupe-distinct [] names refl);
      names_bounded = ground (arith, dedupe-length [] names);
    }
bounded_services-Allowlist _ services e = absurd (cc)

abbrev answer_fields : Value → Fields
answer_fields (dict fields) = fields
answer_fields _ = end

ok_injective : {a b : Fields} (r : Result Failure Fields) → r ≡ ok a → r ≡ ok b → a ≡ b
ok_injective {a} r e f = ap (value_or a) (sym e ∙ f)

valid_services-strings :
    (services : List String)
    → all service_name_valid services ≡ true
    → valid_services (elements (strings services)) ≡ services
unfolding valid_services
valid_services-strings [] h = refl
valid_services-strings (name ∷ rest) h = ground (arith, valid_services-strings rest)

apply_filters-services :
    (keys : List String) (configuration config updated : Fields)
    → all (λ key. not (key == "services")) keys ≡ true
    → apply_filters keys configuration config ≡ ok updated
    → get "services" updated ≡ get "services" config
unfolding apply_filters
apply_filters-services [] configuration config updated k e = ground arith
apply_filters-services (key ∷ keys) configuration config updated k e =
    let (names, n, r) =
      >>=-eq-ok (normalized_filter (get_or (get_or (list nil) key config) key configuration)) _ e in
    apply_filters-services keys configuration (set key (list (strings names)) config) updated
      (ground arith) r
    ∙ get-set_other key "services" _ _ (ground arith)

updated_config-services :
    (configuration config updated : Fields) (services : List String)
    → updated_config configuration services config ≡ ok updated
    → get "services" updated ≡ list (strings services)
unfolding updated_config
updated_config-services configuration config updated services e =
    let start = set "services" (list (strings services)) config in
    let (filtered, f, r) = >>=-eq-ok (apply_filters filter_keys configuration start) _ e in
    ap (get "services") (ok_injective _ r refl)
    ∙ get-set_other "schema_version" "services" _ _ refl
    ∙ apply_filters-services filter_keys configuration start filtered refl f
    ∙ get-set_self "services" _ config

-- What `configure-services` leaves: an allowlist, written to the file, that the next
-- `_config` reads, if the file can be read.
pub record Configures (answer : Value) (w : World) : Type 0 where
  pub services : List String
  pub is_allowlist : Allowlist services
  pub reported : get "configured_services" (answer_fields answer) ≡ list (strings services)
  pub config : Fields
  pub read : (read_config (record w { read_faults = [] })).0 ≡ ok (config, services)

abbrev store_and_answer : Fields → Value → Agent Value
store_and_answer updated value =
    Exec.◌>>=◌ (write_config updated) λ _. Exec.◌>>=◌ file_step λ _. pure value

read_config-services :
    (updated : Fields) (services : List String) (w : World)
    → Allowlist services
    → get "services" updated ≡ list (strings services)
    → w.config ≡ json (dict updated)
    → (read_config (record w { read_faults = [] })).0
      ≡ ok (set "services" (list (strings services)) updated, services)
unfolding read_config Exec.◌>>=◌ iterate load_config read_file read_json
read_config-services updated services w a g c =
    ground (arith, valid_services-strings services a.names_valid)

-- The last steps: the file holds the new configuration, and the answer is the reported one.
store_and_answer-config :
    (updated : Fields) (value answer : Value) (w : World)
    → (store_and_answer updated value w).0 ≡ ok answer
    → (answer ≡ value) × ((store_and_answer updated value w).1.config ≡ json (dict updated))
unfolding write_config file_step store_config Exec.◌>>=◌ pure
store_and_answer-config updated value answer w e = ground arith

lift-Post : {A : Type 0} (r : Result Failure A) → Post (lift r) (λ a _. r ≡ ok a)
unfolding lift
lift-Post r = record { at = λ w a e. e }

configure_services-Post :
    (lib : Library) (encoded : String) → Post (configure_services lib encoded) Configures
unfolding configure_services normalized_services
configure_services-Post lib encoded =
    Post-bind (lift (decode_configuration lib encoded)) _ λ configuration.
      Post-after (lift (normalized_services configuration)) _ (lift-Post _) λ services _ n.
        Post-bind read_config _ λ before.
          Post-after (lift (updated_config configuration services before.0)) _ (lift-Post _)
            λ updated _ u. record {
              at = λ w answer e.
                  let (same, written) = store_and_answer-config updated _ answer w e in
                  let allowed =
                    bounded_services-Allowlist (get_or (list nil) "services" configuration) services
                      n in
                  record {
                    services = services;
                    is_allowlist = allowed;
                    reported = ap (λ v. get "configured_services" (answer_fields v)) same;
                    config = set "services" (list (strings services)) updated;
                    read =
                        read_config-services updated services (store_and_answer updated _ w).1
                          allowed
                          (updated_config-services configuration before.0 updated services u)
                          written;
                  };
            }

-- After a successful `configure-services` the allowlist in force is the reported one, and it has at
-- most 128 names, each a valid service name and none twice.
pub configure_services-Configures :
    (lib : Library) (encoded : String) (w : World) (answer : Value)
    → (configure_services lib encoded w).0 ≡ ok answer
    → Configures answer (configure_services lib encoded w).1
configure_services-Configures lib encoded w answer e =
    (configure_services-Post lib encoded).at w answer e
