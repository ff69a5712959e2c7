-- ===== src/Agent/Post.antt =====
-- What holds of the result of an action and of the state that it leaves, if it returns.
use ha_pi_manager_integratio.Prelude.{
  ◌≡◌, refl, ap, Bool, true, false, Result, ok, err, if◌then◌else◌,
}
use mathlib.Core.Path.{subst}
use ha_pi_manager_integratio.Prelude.Results.{value_or}
use ha_pi_manager_integratio.Prelude.Exec.{pure, continue, ◌>>=◌}
use ha_pi_manager_integratio.Agent.World.{World, Agent, Failure}

-- If `m` returns, its result and the state that it leaves satisfy `Q`.
pub record Post {A : Type 0} (m : Agent A) (Q : A → World → Type 0) : Type 0 where
  pub at : (w : World) (a : A) → (m w).0 ≡ ok a → Q a (m w).1

module _ {A B : Type 0} {Q : B → World → Type 0} where
  continue-Post :
      (r : Result Failure A) (f : A → Agent B)
      → ((a : A) → Post (f a) Q)
      → (w : World) (b : B) → (continue r f w).0 ≡ ok b
      → Q b (continue r f w).1
  continue-Post (ok a) f post w b e = (post a).at w b e
  continue-Post (err x) f post w b e = absurd (cc)

  pub Post-bind : (m : Agent A) (f : A → Agent B) → ((a : A) → Post (f a) Q) → Post (m >>= f) Q
  unfolding ◌>>=◌
  Post-bind m f post = record { at = λ w b e. continue-Post (m w).0 f post (m w).1 b e }

  continue-Post_after :
      {P : A → World → Type 0} (r : Result Failure A) (f : A → Agent B) (w : World)
      → ((a : A) → r ≡ ok a → P a w)
      → ((a : A) (v : World) → P a v → Post (f a) Q)
      → (b : B) → (continue r f w).0 ≡ ok b
      → Q b (continue r f w).1
  continue-Post_after (ok a) f w known post b e = (post a w (known a refl)).at w b e
  continue-Post_after (err x) f w known post b e = absurd (cc)

  -- The second step may use what holds after the first.
  pub Post-after :
      {P : A → World → Type 0} (m : Agent A) (f : A → Agent B)
      → Post m P
      → ((a : A) (v : World) → P a v → Post (f a) Q)
      → Post (m >>= f) Q
  unfolding ◌>>=◌
  Post-after m f first post = record {
    at = λ w b e. continue-Post_after (m w).0 f (m w).1 (λ a h. first.at w a h) post b e;
  }

module _ {A : Type 0} {Q : A → World → Type 0} where
  pub Post-pure : (a : A) → ((w : World) → Q a w) → Post (pure a) Q
  unfolding pure
  Post-pure a q = record { at = λ w b e. subst (λ x. Q x w) (ap (value_or a) e) (q w) }

  pub Post-if :
      (b : Bool) (m n : Agent A)
      → (b ≡ true → Post m Q)
      → (b ≡ false → Post n Q)
      → Post (if b then m else n) Q
  Post-if true m n pm pn = pm refl
  Post-if false m n pm pn = pn refl
