-- ===== src/Base/Invariants.antt =====
-- Invariants of stateful methods: one rule for each way to build a method.
use mathlib.Core.Path.{◌≡◌, refl}
use mathlib.Core.Bool.{Bool, true, false}
use railyard.Base.Tests.{if◌then◌else◌}
use railyard.Base.Strings.{Text}
use railyard.Base.Results.{Result, ok, err}
use railyard.Base.Actions.{Stateful, pure, raise, lift, continue, ◌>>=◌}

-- `m` keeps `P`, whether it succeeds or fails.
pub record Keeps {S A : Type 0} (P : S → Type 0) (m : Stateful S A) : Type 0 where
  pub from : (s : S) → P s → P (m s).1

module _ {S A : Type 0} {P : S → Type 0} where
  pub Keeps-pure : (a : A) → Keeps P (pure a)
  unfolding pure
  Keeps-pure a = record { from = λ s h. h }

  pub Keeps-raise : (e : Text) → Keeps P (raise {A = A} e)
  unfolding raise
  Keeps-raise e = record { from = λ s h. h }

  pub Keeps-lift : (r : Result A) → Keeps P (lift r)
  unfolding lift
  Keeps-lift r = record { from = λ s h. h }

  pub Keeps-if :
      (b : Bool) (m n : Stateful S A) → Keeps P m → Keeps P n → Keeps P (if b then m else n)
  Keeps-if true m n km kn = km
  Keeps-if false m n km kn = kn

module _ {S A B : Type 0} {P : S → Type 0} where
  Keeps-continue :
      (r : Result A) (f : A → Stateful S B)
      → ((a : A) → Keeps P (f a))
      → (s : S) → P s
      → P (continue r f s).1
  Keeps-continue (ok a) f kf s h = (kf a).from s h
  Keeps-continue (err e) f kf s h = h

  -- the rest of the block may use that the step has succeeded, in the state that it left
  pub Keeps-bind_after :
      (m : Stateful S A) (f : A → Stateful S B)
      → Keeps P m
      → ((a : A) (s : S) → (m s).0 ≡ ok a → P s → P (m s).1 → P (f a (m s).1).1)
      → Keeps P (m >>= f)
  unfolding ◌>>=◌
  Keeps-bind_after m f km kf = record { from = λ s h. go s h (m s).0 refl (km.from s h) }
    where
      go : (s : S) → P s → (r : Result A) → (m s).0 ≡ r → P (m s).1 → P (continue r f (m s).1).1
      go s p (ok a) e h = kf a s e p h
      go s p (err _) e h = h

  pub Keeps-bind :
      (m : Stateful S A) (f : A → Stateful S B)
      → Keeps P m
      → ((a : A) → Keeps P (f a))
      → Keeps P (m >>= f)
  unfolding ◌>>=◌
  Keeps-bind m f km kf = record { from = λ s h. Keeps-continue (m s).0 f kf (m s).1 (km.from s h) }

pub ruleset keeps_rules = (Keeps-pure, Keeps-raise, Keeps-lift, Keeps-if, Keeps-bind)
