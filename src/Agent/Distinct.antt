-- ===== src/Agent/Distinct.antt =====
-- Lists of names without repetitions.
use ha_pi_manager_integratio.Prelude.{
  ◌≤◌, ◌+◌, String, ◌==◌, ◌≡◌, refl, Bool, true, false, not, ◌&&◌, ◌||◌, List, [], ◌∷◌, ◌++◌, arith,
  all, length, if◌then◌else◌, eq_iff,
}
use ha_pi_manager_integratio.Agent.Services.{contains}
use ha_pi_manager_integratio.Agent.Config.{dedupe}

-- No text stands twice in the list.
abbrev pub distinct : List String → Bool
distinct [] = true
distinct (x ∷ xs) = not (contains x xs) && distinct xs

contains-snoc :
    (x y : String) (xs : List String) → contains x (xs ++ (y ∷ [])) ≡ (contains x xs || (y == x))
contains-snoc x y [] = ground arith
contains-snoc x y (z ∷ xs) = ground (arith, contains-snoc x y xs)

pub distinct-snoc :
    (xs : List String) (x : String)
    → distinct xs ≡ true
    → contains x xs ≡ false
    → distinct (xs ++ (x ∷ [])) ≡ true
distinct-snoc [] x d c = refl
distinct-snoc (y ∷ xs) x d c =
    ground (arith, contains-snoc y x xs, distinct-snoc xs x, eq_iff x y, eq_iff y x)

pub all-snoc :
    (p : String → Bool) (xs : List String) (x : String)
    → all p xs ≡ true
    → p x ≡ true
    → all p (xs ++ (x ∷ [])) ≡ true
all-snoc p [] x a h = ground arith
all-snoc p (y ∷ xs) x a h = ground (arith, all-snoc p xs x)

-- A list without repetitions keeps its names; the order is that of the first occurrences.
pub dedupe-distinct :
    (seen names : List String) → distinct seen ≡ true → distinct (dedupe seen names) ≡ true
unfolding dedupe
dedupe-distinct seen [] d = d
dedupe-distinct seen (name ∷ rest) d =
    dedupe-distinct (if contains name seen then seen else seen ++ (name ∷ [])) rest
      (ground (arith, distinct-snoc seen name))

pub dedupe-all :
    (p : String → Bool) (seen names : List String)
    → all p seen ≡ true
    → all p names ≡ true
    → all p (dedupe seen names) ≡ true
unfolding dedupe
dedupe-all p seen [] a b = a
dedupe-all p seen (name ∷ rest) a b =
    dedupe-all p (if contains name seen then seen else seen ++ (name ∷ [])) rest
      (ground (arith, all-snoc p seen name)) (ground arith)

length-snoc : (xs : List String) (x : String) → length (xs ++ (x ∷ [])) ≡ length xs + 1
length-snoc [] x = refl
length-snoc (y ∷ xs) x = ground (arith, length-snoc xs x)

pub dedupe-length :
    (seen names : List String) → length (dedupe seen names) ≤ length seen + length names
unfolding dedupe
dedupe-length seen [] = omega arith
dedupe-length seen (name ∷ rest) = ground (
  arith,
  dedupe-length (if contains name seen then seen else seen ++ (name ∷ [])) rest,
  length-snoc seen name,
)
