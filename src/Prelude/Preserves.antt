-- ===== src/Prelude/Preserves.antt =====
-- Invariants of actions over any state: one rule for each way to build an action.
use mathlib.Core.Path.{◌≡◌, refl, ap}
use mathlib.Core.Bool.{Bool, true, false}
use ha_pi_manager_integratio.Prelude.Results.{Result, ok, err}
use ha_pi_manager_integratio.Prelude.Exec.{Exec, pure, lift, gets, unless, continue, ◌>>=◌}

-- `m` keeps `P`, whether it returns or raises.
pub record Preserves {S E A : Type 0} (P : S → Type 0) (m : Exec S E A) : Type 0 where
  pub at : (s : S) → P s → P (m s).1

module _ {S E A : Type 0} {P : S → Type 0} where
  pub Preserves-gets : (read : S → A) → Preserves {E = E} P (gets read)
  unfolding gets
  Preserves-gets read = record { at = λ s held. held }

  pub Preserves-lift : (result : Result E A) → Preserves P (lift result)
  unfolding lift
  Preserves-lift result = record { at = λ s held. held }

  pub Preserves-pure : (value : A) → Preserves {E = E} P (pure value)
  unfolding pure
  Preserves-pure value = record { at = λ s held. held }

module _ {S E : Type 0} {P : S → Type 0} where
  pub Preserves-unless : (b : Bool) (e : E) → Preserves P (unless b e)
  unfolding unless
  Preserves-unless true e = record { at = λ s held. held }
  Preserves-unless false e = record { at = λ s held. held }

module _ {S E A B : Type 0} {P : S → Type 0} where
  pub continue-preserves :
      (result : Result E A) (f : A → Exec S E B) (s : S)
      → ((a : A) → Preserves P (f a))
      → P s
      → P (continue result f s).1
  continue-preserves (ok a) f s k held = (k a).at s held
  continue-preserves (err e) f s k held = held

  pub Preserves-bind :
      (m : Exec S E A) (f : A → Exec S E B)
      → Preserves P m
      → ((a : A) → Preserves P (f a))
      → Preserves P (m >>= f)
  unfolding ◌>>=◌
  Preserves-bind m f km kf = record {
    at = λ s held. continue-preserves (m s).0 f (m s).1 kf (km.at s held);
  }

module _ {S E A B : Type 0} where
  -- Inversion of a block that returns
  continue-ok :
      (result : Result E A) (f : A → Exec S E B) (s : S) (b : B)
      → (continue result f s).0 ≡ ok b
      → (a : A) × (result ≡ ok a)
  continue-ok (ok a) f s b h = (a, refl)
  continue-ok (err e) f s b h = absurd (cc)

  pub >>=-returns :
      (m : Exec S E A) (f : A → Exec S E B) (s : S) (b : B)
      → ((m >>= f) s).0 ≡ ok b
      → (a : A) × ((m s).0 ≡ ok a) × ((m >>= f) s ≡ f a (m s).1)
  unfolding ◌>>=◌
  >>=-returns m f s b h =
      let (a, p) = continue-ok (m s).0 f (m s).1 b h in (a, p, ap (λ r. continue r f (m s).1) p)

-- `m` leads from `P` to `Q`, whether it returns or raises.
pub record Leads {S E A : Type 0} (P Q : S → Type 0) (m : Exec S E A) : Type 0 where
  pub at : (s : S) → P s → Q (m s).1

module _ {S E A B : Type 0} {P Q : S → Type 0} where
  continue-leads :
      (result : Result E A) (f : A → Exec S E B) (s : S)
      → ((s : S) → P s → Q s)
      → ((a : A) → Leads P Q (f a))
      → P s
      → Q (continue result f s).1
  continue-leads (ok a) f s weaken k held = (k a).at s held
  continue-leads (err e) f s weaken k held = weaken s held

  -- The step stands in the part behind `m`.
  pub Leads-later :
      (m : Exec S E A) (f : A → Exec S E B)
      → ((s : S) → P s → Q s)
      → Preserves P m
      → ((a : A) → Leads P Q (f a))
      → Leads P Q (m >>= f)
  unfolding ◌>>=◌
  Leads-later m f weaken km kf = record {
    at = λ s held. continue-leads (m s).0 f (m s).1 weaken kf (km.at s held);
  }

  -- The step stands in `m`.
  pub Leads-now :
      (m : Exec S E A) (f : A → Exec S E B)
      → Leads P Q m
      → ((a : A) → Preserves Q (f a))
      → Leads P Q (m >>= f)
  unfolding ◌>>=◌
  Leads-now m f km kf = record {
    at = λ s held. continue-preserves (m s).0 f (m s).1 kf (km.at s held);
  }
