-- ===== src/Agent/Keeps.antt =====
-- Invariants of the helper's actions: one rule for each way to build an action.
use ha_pi_manager_integratio.Prelude.{
  String, Bool, true, false, ◌≡◌, refl, Result, ok, err, if◌then◌else◌,
}
use ha_pi_manager_integratio.Prelude.Exec.{pure, raise, lift, gets, unless, continue, ◌>>=◌}
use ha_pi_manager_integratio.Agent.World.{World, Agent, Failure, on_os_error}

-- `m` keeps `P`, whether it returns or raises.
pub record Keeps {A : Type 0} (P : World → Type 0) (m : Agent A) : Type 0 where
  pub at : (w : World) → P w → P (m w).1

module _ {A : Type 0} {P : World → Type 0} where
  -- Either branch may use the test.
  pub Keeps-if :
      (test : Bool) (m n : Agent A)
      → (test ≡ true → Keeps P m)
      → (test ≡ false → Keeps P n)
      → Keeps P (if test then m else n)
  Keeps-if true m n k _ = k refl
  Keeps-if false m n _ k = k refl

  pub Keeps-gets : (read : World → A) → Keeps P (gets read)
  unfolding gets
  Keeps-gets read = record { at = λ w held. held }

  pub Keeps-lift : (result : Result Failure A) → Keeps P (lift result)
  unfolding lift
  Keeps-lift result = record { at = λ w held. held }

  pub Keeps-pure : (value : A) → Keeps P (pure value)
  unfolding pure
  Keeps-pure value = record { at = λ w held. held }

  pub Keeps-raise : (failure : Failure) → Keeps {A = A} P (raise failure)
  unfolding raise
  Keeps-raise failure = record { at = λ w held. held }

  pub Keeps-on_os_error : (code : String) (m : Agent A) → Keeps P m → Keeps P (on_os_error code m)
  unfolding on_os_error
  Keeps-on_os_error code m k = record { at = λ w h. k.at w h }

module _ {P : World → Type 0} where
  pub Keeps-unless : (b : Bool) (e : Failure) → Keeps P (unless b e)
  unfolding unless
  Keeps-unless true e = record { at = λ w h. h }
  Keeps-unless false e = record { at = λ w h. h }

module _ {B : Type 0} {P : World → Type 0} where
  -- The rest of the block may use that the test held.
  pub Keeps-bind-unless :
      (b : Bool) (e : Failure) (f : Unit {0} → Agent B)
      → (b ≡ true → Keeps P (f tt))
      → Keeps P (unless b e >>= f)
  unfolding ◌>>=◌
  Keeps-bind-unless true e f k = record { at = λ w h. (k refl).at w h }
  Keeps-bind-unless false e f k = record { at = λ w h. h }

module _ {A B : Type 0} {P : World → Type 0} where
  -- The rest of the block may use that `r` did not raise.
  pub Keeps-bind-lift :
      (result : Result Failure A) (next : A → Agent B)
      → ((value : A) → result ≡ ok value → Keeps P (next value))
      → Keeps P (lift result >>= next)
  unfolding ◌>>=◌
  Keeps-bind-lift (ok value) next kept = record { at = λ w held. (kept value refl).at w held }
  Keeps-bind-lift (err failure) next kept = record { at = λ w held. held }

  continue-Keeps :
      (r : Result Failure A) (f : A → Agent B)
      → ((a : A) → Keeps P (f a))
      → (w : World) → P w
      → P (continue r f w).1
  continue-Keeps (ok a) f k w h = (k a).at w h
  continue-Keeps (err e) f k w h = h

  pub Keeps-bind :
      (first : Agent A) (next : A → Agent B)
      → Keeps P first
      → ((value : A) → Keeps P (next value))
      → Keeps P (first >>= next)
  unfolding ◌>>=◌
  Keeps-bind first next k kept = record {
    at = λ w held. continue-Keeps (first w).0 next kept (first w).1 (k.at w held);
  }

  continue-Keeps_known :
      (r : Result Failure A) (f : A → Agent B)
      → ((a : A) → r ≡ ok a → Keeps P (f a))
      → (w : World) → P w
      → P (continue r f w).1
  continue-Keeps_known (ok a) f k w h = (k a refl).at w h
  continue-Keeps_known (err e) f k w h = h

  -- The rest of the block may use that `m` returned its argument, from a state with the invariant.
  pub Keeps-bind_known :
      (m : Agent A) (f : A → Agent B)
      → Keeps P m
      → ((a : A) (w : World) → P w → (m w).0 ≡ ok a → Keeps P (f a))
      → Keeps P (m >>= f)
  unfolding ◌>>=◌
  Keeps-bind_known m f km kf = record {
    at = λ w h. continue-Keeps_known (m w).0 f (λ a e. kf a w h e) (m w).1 (km.at w h);
  }

pub ruleset keeps_rules = (
  Keeps-pure, Keeps-raise, Keeps-lift, Keeps-gets, Keeps-if, Keeps-on_os_error, Keeps-unless,
  Keeps-bind,
)
