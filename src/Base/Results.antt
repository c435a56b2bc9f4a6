-- ===== src/Base/Results.antt =====
-- `anyhow::Result`: a value, or an error as its message.
use mathlib.Core.Path.{◌≡◌, refl}
use mathlib.Core.Logic.{◌⊎◌, inl, inr}
use mathlib.Core.Bool.{Bool, true, false}
use mathlib.Core.Option.{Option, none, some}
use railyard.Base.Strings.{Text}

pub data Result {ℓ} (A : Type ℓ) : Type ℓ where
  err : Text → Result A
  ok : A → Result A

-- the chain of fallible steps that `?` makes
module _ {ℓ κ} {A : Type ℓ} {B : Type κ} where
  infixl 10 ◌>>=◌ ◌>>◌
  abbrev pub ◌>>=◌ : Result A → (A → Result B) → Result B
  err why >>= next = err why
  ok value >>= next = next value

  abbrev pub ◌>>◌ : Result A → Result B → Result B
  first >> second = first >>= λ _. second

  -- Each step of a chain that succeeds has succeeded.
  pub >>=-eq-ok :
      (step : Result A) (next : A → Result B) {last : B}
      → (step >>= next) ≡ ok last
      → (value : A) × (step ≡ ok value) × (next value ≡ ok last)
  >>=-eq-ok (err why) next done = cc
  >>=-eq-ok (ok value) next done = (value, refl, done)

module _ {ℓ} {A : Type ℓ} where
  pub Result-cases : (r : Result A) → ((a : A) × (r ≡ ok a)) ⊎ ((e : Text) × (r ≡ err e))
  Result-cases (err e) = inr (e, refl)
  Result-cases (ok a) = inl (a, refl)

module _ {A : Type 0} where
  unfoldable pub ok_or : Option A → Text → Result A
  ok_or none e = err e
  ok_or (some a) e = ok a

  pub ok_or-eq-ok : (o : Option A) (e : Text) (a : A) → ok_or o e ≡ ok a → o ≡ some a
  unfolding ok_or
  ok_or-eq-ok none e a h = cc
  ok_or-eq-ok (some b) e a h = cc

-- `if !test { bail!(…) }`
unfoldable pub ensure : Bool → Text → Result (Unit {0})
ensure true e = ok tt
ensure false e = err e

pub ensure-eq-ok : (b : Bool) (e : Text) {u : Unit {0}} → ensure b e ≡ ok u → b ≡ true
unfolding ensure
ensure-eq-ok true e h = refl
ensure-eq-ok false e h = cc
