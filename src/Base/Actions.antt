-- ===== src/Base/Actions.antt =====
-- Methods that change a state and may return an error. What was written before the error stays
-- written, so the state comes back beside it.
use mathlib.Core.Path.{◌≡◌, refl}
use railyard.Base.Strings.{Text}
use railyard.Base.Results.{Result, ok, err}

abbrev pub Stateful : Type 0 → Type 0 → Type 0
Stateful S A = S → Result A × S

module _ {S A : Type 0} where
  unfoldable pub pure : A → Stateful S A
  pure a s = (ok a, s)

  unfoldable pub raise : Text → Stateful S A
  raise e s = (err e, s)

  unfoldable pub lift : Result A → Stateful S A
  lift r s = (r, s)

module _ {S A B : Type 0} where
  abbrev pub continue : Result A → (A → Stateful S B) → Stateful S B
  continue (ok a) f s = f a s
  continue (err e) f s = (err e, s)

  infixl 10 ◌>>=◌ ◌>>◌
  -- opening this opens `pure`, `raise` and `lift` too
  unfoldable pub ◌>>=◌ : Stateful S A → (A → Stateful S B) → Stateful S B
  unfolding pure raise lift
  ◌>>=◌ m f s = let (r, s') = m s in continue r f s'

  abbrev pub ◌>>◌ : Stateful S A → Stateful S B → Stateful S B
  m >> n = m >>= λ _. n

module _ {S A B : Type 0} where
  -- Each step of an action that succeeds has succeeded; the rest runs in the state that it left.
  pub >>=-eq-ok :
      (m : Stateful S A) (f : A → Stateful S B) {b : B} (s : S)
      → ((m >>= f) s).0 ≡ ok b
      → (a : A) × ((m s).0 ≡ ok a) × ((f a (m s).1).0 ≡ ok b) × ((m >>= f) s ≡ f a (m s).1)
  unfolding ◌>>=◌
  >>=-eq-ok m f {b} s h = go (m s).0 (m s).1 h
    where
      go :
          (r : Result A) (s' : S)
          → (continue r f s').0 ≡ ok b
          → (a : A) × (r ≡ ok a) × ((f a s').0 ≡ ok b) × (continue r f s' ≡ f a s')
      go (ok a) s' h = (a, refl, h, refl)
      go (err e) s' h = cc

  -- What holds after an action that succeeds: it is enough to show it after the rest, for a step that
  -- has succeeded in any state that it may have left.
  pub bind_after :
      (m : Stateful S A) (f : A → Stateful S B) {b : B} (s : S) (C : S → Type 0)
      → ((m >>= f) s).0 ≡ ok b
      → ((a : A) (s' : S) → (m s).0 ≡ ok a → (m s).1 ≡ s' → (f a s').0 ≡ ok b → C (f a s').1)
      → C ((m >>= f) s).1
  unfolding ◌>>=◌
  bind_after m f {b} s C h k = go (m s).0 (m s).1 refl refl h
    where
      go :
          (r : Result A) (s' : S)
          → (m s).0 ≡ r
          → (m s).1 ≡ s'
          → (continue r f s').0 ≡ ok b
          → C (continue r f s').1
      go (ok a) s' e e' h = k a s' e e' h
      go (err e) s' _ _ h = cc

module _ {S A B : Type 0} where
  -- a last `pure` changes nothing
  pub state-bind-pure :
      (m : Stateful S A) (g : A → B) (s : S) → ((m >>= λ a. pure (g a)) s).1 ≡ (m s).1
  unfolding ◌>>=◌
  state-bind-pure m g s = go (m s).0
    where
      go : (r : Result A) → (continue r (λ a. pure (g a)) (m s).1).1 ≡ (m s).1
      go (ok a) = refl
      go (err e) = refl
