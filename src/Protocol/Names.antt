-- ===== src/Protocol/Names.antt =====
-- The names of held packages and failed services, from the helper to the integration.
use ha_pi_manager_integratio.Prelude.{
  ℕ, ◌+◌, ◌≤◌, ◌≡◌, refl, ap, String, false, List, [], ◌∷◌, ok, str_len, length, take, length-take,
  map, arith, ltb, All,
}
use ha_pi_manager_integratio.Prelude.Results.{◌>>=◌}
use ha_pi_manager_integratio.Json.{Value, str, list, dict, Fields, elements, strings, get}
use ha_pi_manager_integratio.Models.{PackageHoldsInfo, FailedServicesInfo}
use ha_pi_manager_integratio.Contract.Fields.{mapping, parse_each, at_index}
use ha_pi_manager_integratio.Contract.Maintenance.{
  bounded_list, parse_name, parse_holds, parse_failed_services,
}
use ha_pi_manager_integratio.Agent.Maintenance.Public.{package_names, bounded_names, public_names}
use ha_pi_manager_integratio.Protocol.Accepts.{Accepts, Accepts-ok, Accepts-known}
use ha_pi_manager_integratio.Protocol.Texts.{
  shown_text, string-short, str_len-str_take, optional_string-bounded_text,
}

-- The names that the helper shows of a list
abbrev pub shown_names : Value → List String
shown_names (list items) = package_names (take 256 (elements items))
shown_names _ = []

elements-strings : (names : List String) → elements (strings names) ≡ map str names
elements-strings [] = refl
elements-strings (name ∷ names) = ap (λ (vs : List Value). str name ∷ vs) (elements-strings names)

length-map : (names : List String) → length (map str names) ≡ length names
length-map [] = refl
length-map (name ∷ names) = omega (arith, length-map names)

package_names-short :
    (items : List Value) → All (λ (name : String). str_len name ≤ 256) (package_names items)
unfolding package_names
package_names-short [] = tt
package_names-short (str name ∷ rest) =
    ground (arith, package_names-short rest, str_len-str_take 256 name)
package_names-short (_ ∷ rest) = package_names-short rest

package_names-length : (items : List Value) → length (package_names items) ≤ length items
unfolding package_names
package_names-length [] = omega arith
package_names-length (str name ∷ rest) = ground (arith, package_names-length rest)
package_names-length (_ ∷ rest) = omega (arith, package_names-length rest)

parse_each-names :
    (list_name : String) (index : ℕ) (names : List String)
    → All (λ (name : String). str_len name ≤ 256) names
    → parse_each (parse_name list_name) index (map str names) ≡ ok names
unfolding parse_each parse_name ◌>>=◌
parse_each-names list_name index [] short = refl
parse_each-names list_name index (name ∷ names) short =
    rw (string-short name (at_index list_name index "") "" (omega (arith, short.0)))
      (rw (parse_each-names list_name (index + 1) names short.1) refl)

not_above : (n : ℕ) → n ≤ 256 → ltb 256 n ≡ false
not_above n h = ground arith

names-bounded : (v : Value) → ltb 256 (length (map str (shown_names v))) ≡ false
names-bounded (list items) = not_above _ (
    omega (
      arith,
      length-map (package_names (take 256 (elements items))),
      package_names-length (take 256 (elements items)),
      length-take 256 (elements items),
    ))
names-bounded _ = refl

names-short : (v : Value) → All (λ (name : String). str_len name ≤ 256) (shown_names v)
names-short (list items) = package_names-short (take 256 (elements items))
names-short _ = tt

bounded_list-bounded_names :
    (code : String) (v : Value)
    → bounded_list 256 code (bounded_names v) ≡ ok (map str (shown_names v))
unfolding bounded_list bounded_names
bounded_list-bounded_names code (list items) =
    rw (elements-strings (package_names (take 256 (elements items))))
      (rw (names-bounded (list items)) refl)
bounded_list-bounded_names code _ = refl

-- What it reads of the holds and of the failed services
pub record IsHoldsOf (raw : Fields) (h : PackageHoldsInfo) : Type 0 where
  pub last_checked : h.last_checked ≡ shown_text (get "last_checked" raw)
  pub packages : h.packages ≡ shown_names (get "packages" raw)

pub record IsFailedOf (raw : Fields) (f : FailedServicesInfo) : Type 0 where
  pub last_checked : f.last_checked ≡ shown_text (get "last_checked" raw)
  pub services : f.services ≡ shown_names (get "services" raw)

pub parse_holds-public_names :
    (raw : Fields) → Accepts (IsHoldsOf raw) (parse_holds (public_names "packages" (dict raw)))
unfolding parse_holds public_names mapping
parse_holds-public_names raw = Accepts-known _ _ refl (
    Accepts-known _ _ (bounded_list-bounded_names _ (get "packages" raw)) (
      Accepts-known _ _ (optional_string-bounded_text (get "last_checked" raw) _) (
        Accepts-known _ _ (parse_each-names _ 0 _ (names-short (get "packages" raw)))
          (Accepts-ok _ (record { last_checked = refl; packages = refl })))))

pub parse_failed_services-public_names :
    (raw : Fields)
    → Accepts (IsFailedOf raw) (parse_failed_services (public_names "services" (dict raw)))
unfolding parse_failed_services public_names mapping
parse_failed_services-public_names raw = Accepts-known _ _ refl (
    Accepts-known _ _ (bounded_list-bounded_names _ (get "services" raw)) (
      Accepts-known _ _ (optional_string-bounded_text (get "last_checked" raw) _) (
        Accepts-known _ _ (parse_each-names _ 0 _ (names-short (get "services" raw)))
          (Accepts-ok _ (record { last_checked = refl; services = refl })))))
