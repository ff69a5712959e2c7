-- ===== src/Prelude/Returns.antt =====
-- What holds when an action returns, from what held before it, of the value and of the state.
use mathlib.Core.Path.{◌≡◌, refl, ap, subst}
use mathlib.Core.Bool.{Bool, true, false}
use ha_pi_manager_integratio.Prelude.Results.{Result, ok, err, value_or}
use ha_pi_manager_integratio.Prelude.Exec.{Exec, pure, unless, continue, ◌>>=◌}
use ha_pi_manager_integratio.Prelude.Preserves.{Preserves}

-- From a state of `P`, the value that `m` returns satisfies `Q`.
pub record Returns {S E A : Type 0} (P : S → Type 0) (Q : A → Type 0) (m : Exec S E A)
    : Type 0 where
  pub at : (s : S) (a : A) → P s → (m s).0 ≡ ok a → Q a

module _ {S E A B : Type 0} {R : S → Type 0} {Q : B → Type 0} where
  continue-returns :
      (result : Result E A) (f : A → Exec S E B) (s : S) (b : B)
      → ((a : A) → result ≡ ok a → R s × Returns R Q (f a))
      → (continue result f s).0 ≡ ok b
      → Q b
  continue-returns (ok a) f s b k e = let (r, q) = k a refl in q.at s b r e
  continue-returns (err x) f s b k e = absurd (cc)

module _ {S E A B : Type 0} {P R : S → Type 0} {Q : B → Type 0} where
  -- The rest of a block may use what the first step returned.
  pub Returns-bind :
      (m : Exec S E A) (f : A → Exec S E B)
      → ((s : S) (a : A) → P s → (m s).0 ≡ ok a → R (m s).1 × Returns R Q (f a))
      → Returns P Q (m >>= f)
  unfolding ◌>>=◌
  Returns-bind m f k = record {
    at = λ s b held e. continue-returns (m s).0 f (m s).1 b (λ a r. k s a held r) e;
  }

module _ {S E A B : Type 0} {P : S → Type 0} {Q : B → Type 0} where
  -- The same for a step that keeps what held
  pub Returns-behind :
      (m : Exec S E A) (f : A → Exec S E B)
      → Preserves P m
      → ((s : S) (a : A) → P s → (m s).0 ≡ ok a → Returns P Q (f a))
      → Returns P Q (m >>= f)
  Returns-behind m f keeps k = Returns-bind m f (λ s a held r. (keeps.at s held, k s a held r))

module _ {S E A : Type 0} {P : S → Type 0} {Q : A → Type 0} where
  pub Returns-all : (m : Exec S E A) → ((a : A) → Q a) → Returns P Q m
  Returns-all m q = record { at = λ s a held e. q a }

  pub Returns-pure : (a : A) → Q a → Returns {E = E} P Q (pure a)
  unfolding pure
  Returns-pure a q = record { at = λ s b held e. subst Q (ap (value_or a) e) q }

module _ {S E : Type 0} where
  pub unless-ok : (b : Bool) (e : E) (s : S) (u : Unit {0}) → (unless b e s).0 ≡ ok u → b ≡ true
  unfolding unless
  unless-ok true e s u h = refl
  unless-ok false e s u h = absurd (cc)

-- From a state of `P`, the value that `m` returns and the state that it leaves satisfy `Q`.
pub record Yields {S E A : Type 0} (P : S → Type 0) (Q : A → S → Type 0) (m : Exec S E A)
    : Type 0 where
  pub at : (s : S) (a : A) → P s → (m s).0 ≡ ok a → Q a (m s).1

module _ {S E A B : Type 0} {R : A → S → Type 0} {Q : B → S → Type 0} where
  continue-yields :
      (result : Result E A) (f : A → Exec S E B) (s : S) (b : B)
      → ((a : A) → result ≡ ok a → R a s × Yields (R a) Q (f a))
      → (continue result f s).0 ≡ ok b
      → Q b (continue result f s).1
  continue-yields (ok a) f s b k e = let (r, q) = k a refl in q.at s b r e
  continue-yields (err x) f s b k e = absurd (cc)

module _ {S E A B : Type 0} {P : S → Type 0} {R : A → S → Type 0} {Q : B → S → Type 0} where
  pub Yields-bind :
      (m : Exec S E A) (f : A → Exec S E B)
      → ((s : S) (a : A) → P s → (m s).0 ≡ ok a → R a (m s).1 × Yields (R a) Q (f a))
      → Yields P Q (m >>= f)
  unfolding ◌>>=◌
  Yields-bind m f k = record {
    at = λ s b held e. continue-yields (m s).0 f (m s).1 b (λ a r. k s a held r) e;
  }

module _ {S E A B : Type 0} {P : S → Type 0} {Q : B → S → Type 0} where
  pub Yields-behind :
      (m : Exec S E A) (f : A → Exec S E B)
      → Preserves P m
      → ((s : S) (a : A) → P s → (m s).0 ≡ ok a → Yields P Q (f a))
      → Yields P Q (m >>= f)
  Yields-behind m f keeps k =
      Yields-bind {R = λ _. P} m f (λ s a held r. (keeps.at s held, k s a held r))

module _ {S E A : Type 0} {P : S → Type 0} {Q : A → S → Type 0} where
  pub Yields-pure : (a : A) → ((s : S) → P s → Q a s) → Yields {E = E} P Q (pure a)
  unfolding pure
  Yields-pure a q = record { at = λ s b held e. subst (λ c. Q c s) (ap (value_or a) e) (q s held) }

module _ {S E A : Type 0} {P Q : S → Type 0} where
  -- What a step keeps, and then implies
  pub Yields-kept : (m : Exec S E A) → Preserves P m → ((s : S) → P s → Q s) → Yields P (λ _. Q) m
  Yields-kept m keeps q = record { at = λ s a held e. q _ (keeps.at s held) }
