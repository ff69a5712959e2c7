-- ===== src/Protocol/Previews.antt =====
-- The list of previews, from the helper to the integration.
use ha_pi_manager_integratio.Prelude.{
  ℕ, suc, ◌+◌, eq_iff, Bool-cases, inl, inr, ◌≤◌, ◌≡◌, refl, ap, sym, String, ◌==◌, true, false,
  Option, none, some, List, [], ◌∷◌, ok, str_len, length, length-take, map, arith, ltb, All,
  if◌then◌else◌,
}
use mathlib.Core.Path.{subst}
use ha_pi_manager_integratio.Json.{Value, str, list, dict, Fields, of_list, elements-of_list, get}
use ha_pi_manager_integratio.Models.{PackagePreviewInfo}
use ha_pi_manager_integratio.Contract.Fields.{parse_each}
use ha_pi_manager_integratio.Contract.Maintenance.{bounded_list, parse_preview}
use ha_pi_manager_integratio.Agent.Constants.{has_key, package_preview_commands}
use ha_pi_manager_integratio.Agent.Maintenance.Public.{
  public_preview, known_preview, public_previews, preview_values,
}
use ha_pi_manager_integratio.Protocol.Accepts.{Accepts, Accepts-ok, Accepts-bind}
use ha_pi_manager_integratio.Protocol.Preview.{IsPreviewOf, parse_preview-public_preview}

-- The previews that the helper shows, each with its operation
abbrev pub known_operation : Value → Option String
known_operation (str operation) =
    if has_key operation package_preview_commands then some operation else none
known_operation _ = none

abbrev pub add_known : Option String → Fields → List (String × Fields) → List (String × Fields)
add_known none raw more = more
add_known (some operation) raw more = (operation, raw) ∷ more

abbrev pub shown_previews : List Value → List (String × Fields)
shown_previews [] = []
shown_previews (dict raw ∷ rest) =
    add_known (known_operation (get "operation" raw)) raw (shown_previews rest)
shown_previews (_ ∷ rest) = shown_previews rest

abbrev pub ArePreviewsOf : List (String × Fields) → List PackagePreviewInfo → Type 0
ArePreviewsOf [] [] = Unit
ArePreviewsOf ((operation, raw) ∷ shown) (p ∷ read) =
    IsPreviewOf operation raw p × ArePreviewsOf shown read
ArePreviewsOf _ _ = ⊥

abbrev pub show_preview : String × Fields → Value
show_preview (operation, raw) = public_preview operation raw

preview_of : Fields → Option String → Option Value
preview_of raw none = none
preview_of raw (some operation) = some (public_preview operation raw)

known_preview-known_operation :
    (v : Value) (raw : Fields) → known_preview v raw ≡ preview_of raw (known_operation v)
unfolding known_preview preview_of
known_preview-known_operation (str operation) raw = ground arith
known_preview-known_operation _ raw = refl

add_known-preview_of :
    (o : Option String) (raw : Fields) (items : List Value) (shown : List (String × Fields))
    → items ≡ map show_preview shown
    → (elim (preview_of raw o) as (λ _. List Value) [ none ↦ items | some p ↦ p ∷ items ])
      ≡ map show_preview (add_known o raw shown)
unfolding preview_of
add_known-preview_of none raw items shown e = e
add_known-preview_of (some operation) raw items shown e =
    ap (λ (vs : List Value). public_preview operation raw ∷ vs) e

public_previews-shown_previews :
    (items : List Value) → public_previews items ≡ map show_preview (shown_previews items)
unfolding public_previews
public_previews-shown_previews [] = refl
public_previews-shown_previews (dict raw ∷ rest) =
    subst
      (λ (o : Option Value).
        (elim o as (λ _. List Value) [
          | none ↦ public_previews rest
          | some p ↦ p ∷ public_previews rest
        ])
        ≡ map show_preview (shown_previews (dict raw ∷ rest)))
      (sym (known_preview-known_operation (get "operation" raw) raw))
      (add_known-preview_of (known_operation (get "operation" raw)) raw _ _
        (public_previews-shown_previews rest))
public_previews-shown_previews (_ ∷ rest) = public_previews-shown_previews rest

abbrev KeysShort : List (String × List String) → Type 0
KeysShort [] = Unit
KeysShort ((key, _) ∷ table) = (str_len key ≤ 4096) × KeysShort table

key-short :
    (operation : String) (table : List (String × List String))
    → KeysShort table
    → has_key operation table ≡ true
    → str_len operation ≤ 4096
key-short operation [] short h = cc
key-short operation ((key, argv) ∷ table) short h = elim (Bool-cases (key == operation)) [
  | inl same ↦ subst (λ text. str_len text ≤ 4096) ((eq_iff key operation).0 same) short.0
  | inr other ↦ key-short operation table short.1 (ground (arith, other))
]

operation-short :
    (operation : String)
    → has_key operation package_preview_commands ≡ true
    → str_len operation ≤ 4096
operation-short operation h = key-short operation package_preview_commands (omega arith) h

abbrev pub AllShort : List (String × Fields) → Type 0
AllShort = All (λ (shown : String × Fields). str_len shown.0 ≤ 4096)

add_known-short :
    (v : Value) (raw : Fields) (more : List (String × Fields))
    → AllShort more
    → AllShort (add_known (known_operation v) raw more)
add_known-short (str operation) raw more h =
    elim (Bool-cases (has_key operation package_preview_commands)) [
      | inl known ↦ rw known (operation-short operation known, h)
      | inr unknown ↦ rw unknown h
    ]
add_known-short _ raw more h = h

pub shown_previews-short : (items : List Value) → AllShort (shown_previews items)
shown_previews-short [] = tt
shown_previews-short (dict raw ∷ rest) =
    add_known-short (get "operation" raw) raw _ (shown_previews-short rest)
shown_previews-short (_ ∷ rest) = shown_previews-short rest

add_known-length :
    (o : Option String) (raw : Fields) (more : List (String × Fields))
    → length (add_known o raw more) ≤ suc (length more)
add_known-length none raw more = omega arith
add_known-length (some operation) raw more = omega arith

shown_previews-length : (items : List Value) → length (shown_previews items) ≤ length items
shown_previews-length [] = omega arith
shown_previews-length (dict raw ∷ rest) = omega (
  arith,
  add_known-length (known_operation (get "operation" raw)) raw (shown_previews rest),
  shown_previews-length rest,
)
shown_previews-length (_ ∷ rest) = omega (arith, shown_previews-length rest)

pub parse_each-previews :
    (index : ℕ) (shown : List (String × Fields))
    → All (λ (s : String × Fields). str_len s.0 ≤ 4096) shown
    → Accepts (ArePreviewsOf shown) (parse_each parse_preview index (map show_preview shown))
unfolding parse_each
parse_each-previews index [] short = Accepts-ok _ tt
parse_each-previews index ((operation, raw) ∷ shown) short =
    Accepts-bind (parse_preview-public_preview operation raw index short.0) λ p hp.
      Accepts-bind (parse_each-previews (index + 1) shown short.1) λ rest hr. Accepts-ok _ (hp, hr)

length-map : (shown : List (String × Fields)) → length (map show_preview shown) ≡ length shown
length-map [] = refl
length-map (_ ∷ shown) = omega (arith, length-map shown)

not_above : (n : ℕ) → n ≤ 8 → ltb 8 n ≡ false
not_above n h = ground arith

preview_values-length : (v : Value) → length (preview_values v) ≤ 8
unfolding preview_values
preview_values-length (dict raw) = length-take 8 _
preview_values-length (list items) = length-take 8 _
preview_values-length _ = omega arith

pub bounded_list-previews :
    (v : Value)
    → bounded_list 8 "helper_maintenance_previews_invalid"
        (list (of_list (public_previews (preview_values v))))
      ≡ ok (map show_preview (shown_previews (preview_values v)))
unfolding bounded_list
bounded_list-previews v = rw (elements-of_list (public_previews (preview_values v))) (
    rw (public_previews-shown_previews (preview_values v)) (
      rw
        (not_above (length (map show_preview (shown_previews (preview_values v)))) (
          omega (
            arith,
            length-map (shown_previews (preview_values v)),
            shown_previews-length (preview_values v),
            preview_values-length v,
          )))
        refl))
