-- ===== src/Prelude/Exec.antt =====
-- Methods that change a state and may raise. What was written before a raise stays written.
use mathlib.Core.Bool.{Bool, true, false}
use ha_pi_manager_integratio.Prelude.Results.{Result, ok, err}

abbrev pub Exec : Type 0 → Type 0 → Type 0 → Type 0
Exec S E A = S → Result E A × S

module _ {S E A : Type 0} where
  unfoldable pub pure : A → Exec S E A
  pure a s = (ok a, s)

  unfoldable pub raise : E → Exec S E A
  raise e s = (err e, s)

  unfoldable pub lift : Result E A → Exec S E A
  lift r s = (r, s)

module _ {S E : Type 0} where
  -- Reads a field of the state.
  unfoldable pub gets : {A : Type 0} → (S → A) → Exec S E A
  gets f s = (ok (f s), s)

  unfoldable pub unless : Bool → E → Exec S E (Unit {0})
  unless true e s = (ok tt, s)
  unless false e s = (err e, s)

module _ {S E A B : Type 0} where
  abbrev pub continue : Result E A → (A → Exec S E B) → Exec S E B
  continue (ok a) f s = f a s
  continue (err e) f s = (err e, s)

  infixl 5 ◌>>=◌ ◌>>◌
  unfoldable pub ◌>>=◌ : Exec S E A → (A → Exec S E B) → Exec S E B
  unfolding pure raise lift unless gets
  ◌>>=◌ m f s = let (r, s') = m s in continue r f s'

  abbrev pub ◌>>◌ : Exec S E A → Exec S E B → Exec S E B
  m >> k = m >>= λ _. k
