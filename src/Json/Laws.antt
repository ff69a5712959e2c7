-- ===== src/Json/Laws.antt =====
-- A write to a JSON object, read back.
use ha_pi_manager_integratio.Prelude.{
  String, ◌==◌, ◌≡◌, refl, false, some, if◌then◌else◌, arith, eq_iff, eq_refl,
}
use ha_pi_manager_integratio.Json.{Value, Fields, end, field, find, get, set}

pub find-set :
    (key other : String) (v : Value) (fields : Fields)
    → find other (set key v fields) ≡ (if key == other then some v else find other fields)
unfolding set
find-set key other v end = refl
find-set key other v (field k w rest) =
    ground (arith, eq_iff k key, eq_iff k other, eq_iff key other, find-set key other v rest)

pub get-set_self : (key : String) (v : Value) (fields : Fields) → get key (set key v fields) ≡ v
get-set_self key v fields = ground (arith, find-set key key v fields, eq_refl key)

pub get-set_other :
    (key other : String) (v : Value) (fields : Fields)
    → (key == other) ≡ false
    → get other (set key v fields) ≡ get other fields
get-set_other key other v fields h = ground (arith, find-set key other v fields)
