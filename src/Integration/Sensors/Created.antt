-- ===== src/Integration/Sensors/Created.antt =====
-- Which sensors a run of statuses creates.
use ha_pi_manager_integratio.Prelude.{
  String, ◌≡◌, refl, ap, sym, ◌∙◌, true, false, ◌&&◌, not, List, [], ◌∷◌, ◌++◌, arith, eq_iff,
  eq_refl,
}
use ha_pi_manager_integratio.Models.{HostStatus}
use ha_pi_manager_integratio.Agent.Services.{contains}
use ha_pi_manager_integratio.Agent.Distinct.{distinct}
use ha_pi_manager_integratio.Integration.Sensors.{
  new_names, known_after, mounts, filesystem_entities, created_mounts,
}

-- The mounts of all statuses, one after the other
abbrev pub all_mounts : List HostStatus → List String
all_mounts [] = []
all_mounts (status ∷ statuses) = mounts status ++ all_mounts statuses

new_names-append :
    (known xs ys : List String)
    → new_names known (xs ++ ys) ≡ new_names known xs ++ new_names (known_after known xs) ys
unfolding new_names known_after
new_names-append known [] ys = refl
new_names-append known (x ∷ xs) ys =
    ground (arith, new_names-append known xs ys, new_names-append (x ∷ known) xs ys)

created_mounts-new_names :
    (known : List String) (statuses : List HostStatus)
    → created_mounts known statuses ≡ new_names known (all_mounts statuses)
unfolding created_mounts new_names filesystem_entities
created_mounts-new_names known [] = refl
created_mounts-new_names known (status ∷ statuses) =
    ap (λ (rest : List String). new_names known (mounts status) ++ rest)
      (created_mounts-new_names (known_after known (mounts status)) statuses)
    ∙ sym (new_names-append known (mounts status) (all_mounts statuses))

new_names-unknown :
    (known names : List String) (x : String)
    → contains x known ≡ true
    → contains x (new_names known names) ≡ false
unfolding new_names
new_names-unknown known [] x h = refl
new_names-unknown known (name ∷ names) x h = ground (
  arith,
  new_names-unknown known names x,
  new_names-unknown (name ∷ known) names x,
  eq_iff name x,
)

new_names-distinct : (known names : List String) → distinct (new_names known names) ≡ true
unfolding new_names
new_names-distinct known [] = refl
new_names-distinct known (name ∷ names) = ground (
  arith,
  new_names-distinct known names,
  new_names-distinct (name ∷ known) names,
  new_names-unknown (name ∷ known) names name,
  eq_refl name,
)

new_names-contains :
    (known names : List String) (x : String)
    → contains x (new_names known names) ≡ (contains x names && not (contains x known))
unfolding new_names
new_names-contains known [] x = refl
new_names-contains known (name ∷ names) x = ground (
  arith,
  new_names-contains known names x,
  new_names-contains (name ∷ known) names x,
  eq_iff name x,
)

-- The sensors of file systems that a run of statuses creates
pub record IsOnce (known : List String) (statuses : List HostStatus) : Type 0 where
  pub created_once : distinct (created_mounts known statuses) ≡ true
  pub created_exactly :
      (mount : String)
      → contains mount (created_mounts known statuses)
        ≡ (contains mount (all_mounts statuses) && not (contains mount known))

-- Over any run of statuses a mount gets a sensor exactly if a status has it and it was not known, and
-- it gets it once.
pub created_mounts-IsOnce :
    (known : List String) (statuses : List HostStatus) → IsOnce known statuses
created_mounts-IsOnce known statuses =
    let same = created_mounts-new_names known statuses in
    record {
      created_once = ap distinct same ∙ new_names-distinct known (all_mounts statuses);
      created_exactly =
          λ mount. ap (contains mount) same ∙ new_names-contains known (all_mounts statuses) mount;
    }
