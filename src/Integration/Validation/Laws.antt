-- ===== src/Integration/Validation/Laws.antt =====
-- The names that validation.py lets through.
use ha_pi_manager_integratio.Prelude.{
  String, ε, ◌▹◌, Char, ◌≡◌, refl, true, false, List, [], ◌∷◌, ◌++◌, ok, err, arith, eq_iff,
  eq_refl, all_chars, is_space, lstrip, rstrip, strip, if◌then◌else◌, all,
}
use ha_pi_manager_integratio.Prelude.Results.{◌>>=◌, Ensures, Ensures-ok, Ensures-bind}
use ha_pi_manager_integratio.Errors.{service_name}
use ha_pi_manager_integratio.Agent.Names.{is_service_char, matches_service, service_name_valid}
use ha_pi_manager_integratio.Agent.Services.{contains}
use ha_pi_manager_integratio.Agent.Distinct.{distinct, distinct-snoc, all-snoc}
use ha_pi_manager_integratio.Integration.Validation.{
  validate_service_name, validate_service_list, collect_services,
}

service_char-not_space : (c : Char) → is_service_char c ≡ true → is_space c ≡ false
unfolding is_space
service_char-not_space c h = ground arith

rstrip-service : (s : String) → all_chars is_service_char s ≡ true → rstrip s ≡ s
unfolding rstrip
rstrip-service ε h = refl
rstrip-service (c ▹ s) h = ground (arith, rstrip-service s, service_char-not_space c, eq_iff s ε)

lstrip-service : (s : String) → all_chars is_service_char s ≡ true → lstrip s ≡ s
unfolding lstrip
lstrip-service ε h = refl
lstrip-service (c ▹ s) h = ground (arith, lstrip-service s, service_char-not_space c)

matches_service-chars : (s : String) → matches_service s ≡ true → all_chars is_service_char s ≡ true
unfolding matches_service
matches_service-chars ε h = cc
matches_service-chars (c ▹ s) h = ground arith

strip-service : (s : String) → matches_service s ≡ true → strip s ≡ s
unfolding strip
strip-service s h = ground (arith, lstrip-service s, rstrip-service s, matches_service-chars s)

-- The integration accepts a service name exactly if the helper does, and returns it as it is.
pub validate_service_name-service_name_valid :
    (name : String)
    → validate_service_name name
      ≡ (if service_name_valid name then ok name else err (service_name "service_invalid"))
unfolding validate_service_name service_name_valid ◌>>=◌
validate_service_name-service_name_valid name =
    ground (arith, strip-service name, eq_iff (strip name) name, eq_refl name)

-- What a list of services satisfies after validation
pub record ServicesAreValid (services : List String) : Type 0 where
  pub names_valid : all service_name_valid services ≡ true
  pub names_distinct : distinct services ≡ true

validate_service_name-Ensures :
    (name : String)
    → Ensures (λ validated. service_name_valid validated ≡ true) (validate_service_name name)
validate_service_name-Ensures name = record {
  at = λ validated e. ground (arith, validate_service_name-service_name_valid name);
}

collect_services-ServicesAreValid :
    (result names : List String)
    → ServicesAreValid result
    → Ensures ServicesAreValid (collect_services result names)
unfolding collect_services
collect_services-ServicesAreValid result [] valid = Ensures-ok _ result valid
collect_services-ServicesAreValid result (name ∷ names) valid =
    Ensures-bind (validate_service_name-Ensures name) λ validated h.
      collect_services-ServicesAreValid
        (if contains validated result then result else result ++ (validated ∷ [])) names
        (record {
          names_valid =
              ground (arith, all-snoc service_name_valid result validated, valid.names_valid);
          names_distinct = ground (arith, distinct-snoc result validated, valid.names_distinct);
        })

-- A service list that passes has valid names only and none twice.
pub validate_service_list-ServicesAreValid :
    (names services : List String)
    → validate_service_list names ≡ ok services
    → ServicesAreValid services
unfolding validate_service_list
validate_service_list-ServicesAreValid names services e =
    (collect_services-ServicesAreValid [] names
        (record { names_valid = refl; names_distinct = refl })).at
      services e
