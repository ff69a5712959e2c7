-- ===== src/Prelude/Results.antt =====
-- A computation that returns a value or raises an exception of type `E`.
use mathlib.Core.Path.{◌≡◌, refl, ap, subst}
use mathlib.Core.Bool.{Bool, true, false}

pub data Result {ℓ κ} (E : Type κ) (A : Type ℓ) : Type (ℓ ⊔ κ) where
  ok : A → Result E A
  err : E → Result E A

module _ {ℓ κ μ} {E : Type μ} {A : Type ℓ} {B : Type κ} where
  infixl 5 ◌>>=◌ ◌>>◌
  unfoldable pub ◌>>=◌ : Result E A → (A → Result E B) → Result E B
  ok a >>= f = f a
  err e >>= f = err e

  abbrev pub ◌>>◌ : Result E A → Result E B → Result E B
  m >> k = m >>= λ _. k

  -- Inversion of a successful bind.
  pub >>=-eq-ok :
      (m : Result E A) (f : A → Result E B) {b : B}
      → (m >>= f) ≡ ok b
      → (a : A) × (m ≡ ok a) × (f a ≡ ok b)
  unfolding ◌>>=◌
  >>=-eq-ok (ok a) f h = (a, refl, h)
  >>=-eq-ok (err e) f h = cc

-- `if not test: raise e`
abbrev pub require {μ} : {E : Type μ} → Bool → E → Result E (Unit {0})
require true e = ok tt
require false e = err e

-- Whatever `r` returns satisfies `P`.
pub record Ensures {E A : Type 0} (P : A → Type 0) (r : Result E A) : Type 0 where
  pub at : (a : A) → r ≡ ok a → P a

module _ {E A : Type 0} where
  abbrev pub value_or : A → Result E A → A
  value_or a (ok b) = b
  value_or a (err _) = a

  pub Ensures-ok : (P : A → Type 0) (a : A) → P a → Ensures {E = E} P (ok a)
  Ensures-ok P a h = record { at = λ b e. subst P (ap (value_or a) e) h }

  pub Ensures-err : (P : A → Type 0) (e : E) → Ensures P (err e)
  Ensures-err P e = record { at = λ b h. absurd (cc) }

module _ {E A B : Type 0} {P : B → Type 0} {Q : A → Type 0} where
  pub Ensures-bind :
      {m : Result E A} {f : A → Result E B}
      → Ensures Q m
      → ((a : A) → Q a → Ensures P (f a))
      → Ensures P (m >>= f)
  Ensures-bind {m = m} {f = f} hm hf = record {
    at = λ b e. let (a, p, q) = >>=-eq-ok m f e in (hf a (hm.at a p)).at b q;
  }
