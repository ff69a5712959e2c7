-- ===== src/Protocol/Accepts.antt =====
-- How a parser of the integration meets a part of a report.
use ha_pi_manager_integratio.Prelude.{◌≡◌, refl, ap, sym, ok, err}
use mathlib.Core.Path.{subst}
use ha_pi_manager_integratio.Prelude.Results.{◌>>=◌, value_or}
use ha_pi_manager_integratio.Errors.{PyError, overflow_error, Exc}

-- The parser returns a value of `P`, or fails on an integer that no float can hold, never on the
-- contract.
pub record Accepts {A : Type 0} (P : A → Type 0) (r : Exc A) : Type 0 where
  pub value : (a : A) → r ≡ ok a → P a
  pub failure : (e : PyError) → r ≡ err e → e ≡ overflow_error

error_or : {A : Type 0} → PyError → Exc A → PyError
error_or e (ok a) = e
error_or e (err f) = f

module _ {A : Type 0} {P : A → Type 0} where
  pub Accepts-ok : (a : A) → P a → Accepts P (ok a)
  Accepts-ok a p = record {
    value = λ b e. subst P (ap (value_or a) e) p;
    failure = λ f e. absurd (cc);
  }

  pub Accepts-eq : (r : Exc A) (a : A) → r ≡ ok a → P a → Accepts P r
  Accepts-eq r a e p = subst (λ (s : Exc A). Accepts P s) (sym e) (Accepts-ok a p)

  pub Accepts-overflow : Accepts P (err overflow_error)
  unfolding error_or
  Accepts-overflow = record {
    value = λ b e. absurd (cc);
    failure = λ f e. sym (ap (λ (r : Exc A). error_or overflow_error r) e);
  }

module _ {A B : Type 0} {Q : A → Type 0} {P : B → Type 0} where
  pub Accepts-bind :
      {m : Exc A} {f : A → Exc B}
      → Accepts Q m
      → ((a : A) → Q a → Accepts P (f a))
      → Accepts P (m >>= f)
  unfolding ◌>>=◌ error_or
  Accepts-bind {m = ok a} {f = f} hm hf = hf a (hm.value a refl)
  Accepts-bind {m = err e} {f = f} hm hf = record {
    value = λ b h. absurd (cc);
    failure = λ g h. hm.failure g (ap (λ (r : Exc B). err (error_or e r)) h);
  }

module _ {A B : Type 0} {P : B → Type 0} where
  -- A step whose value is known
  pub Accepts-known :
      {m : Exc A} (f : A → Exc B) (a : A) → m ≡ ok a → Accepts P (f a) → Accepts P (m >>= f)
  unfolding ◌>>=◌
  Accepts-known f a e h = subst (λ (r : Exc A). Accepts P (r >>= f)) (sym e) h
