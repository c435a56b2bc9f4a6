-- ===== src/Base/Rows.antt =====
-- Lists of rows that carry keys: keys that are distinct, what an update or a deletion keeps, and
-- sorting by a comparison.
use mathlib.Core.Path.{◌≡◌, refl, ◌∙◌}
use mathlib.Core.Bool.{Bool, false}
use mathlib.Core.Logic.{inl, inr}
use mathlib.Core.List.{List, [], ◌∷◌}
use native.Mathlib.Omega.{arith}
use railyard.Base.Tests.{if◌then◌else◌, Bool-cases}
use railyard.Base.Lists.{any, filter}
use railyard.Base.Strings.{Text, text_eq}

module _ {A : Type 0} where
  -- some row has the key
  abbrev pub has_key : (A → Text) → Text → List A → Bool
  has_key key k rows = any (λ r. text_eq (key r) k) rows

  abbrev pub Distinct : (A → Text) → List A → Type 0
  Distinct key [] = Unit
  Distinct key (r ∷ rows) = (has_key key (key r) rows ≡ false) × Distinct key rows

  -- `UPDATE … WHERE`: the rows that pass are changed
  unfoldable pub update : (A → Bool) → (A → A) → List A → List A
  update test change [] = []
  update test change (r ∷ rows) =
      let rest = update test change rows in if test r then change r ∷ rest else r ∷ rest

  -- rows are inserted behind those that do not come after them
  unfoldable pub insert_sorted : (A → A → Bool) → A → List A → List A
  insert_sorted before x [] = x ∷ []
  insert_sorted before x (y ∷ ys) =
      let rest = insert_sorted before x ys in if before x y then x ∷ y ∷ ys else y ∷ rest

  unfoldable pub sort_by : (A → A → Bool) → List A → List A
  unfolding insert_sorted
  sort_by before [] = []
  sort_by before (x ∷ xs) = insert_sorted before x (sort_by before xs)

module _ {A : Type 0} (key : A → Text) where
  pub has_key-update :
      (test : A → Bool) (change : A → A) (kept : (r : A) → key (change r) ≡ key r) (k : Text)
      (rows : List A)
      → has_key key k (update test change rows) ≡ has_key key k rows
  unfolding any update
  has_key-update test change kept k [] = refl
  has_key-update test change kept k (r ∷ rows) =
      ground (arith, kept r, has_key-update test change kept k rows)

  pub Distinct-update :
      (test : A → Bool) (change : A → A) (kept : (r : A) → key (change r) ≡ key r) (rows : List A)
      → Distinct key rows
      → Distinct key (update test change rows)
  unfolding update
  Distinct-update test change kept [] d = tt
  Distinct-update test change kept (r ∷ rows) (d, ds) = elim (Bool-cases (test r)) [
    | inl e ↦ rw e (
      rw (kept r) (has_key-update test change kept (key r) rows ∙ d),
      Distinct-update test change kept rows ds,
    )
    | inr e ↦
        rw e (
          has_key-update test change kept (key r) rows ∙ d,
          Distinct-update test change kept rows ds,
        )
  ]

  -- a deletion brings no key back
  pub has_key-filter :
      (test : A → Bool) (k : Text) (rows : List A)
      → has_key key k rows ≡ false
      → has_key key k (filter test rows) ≡ false
  unfolding any filter
  has_key-filter test k [] h = refl
  has_key-filter test k (r ∷ rows) h = ground (arith, has_key-filter test k rows)

  pub Distinct-filter :
      (test : A → Bool) (rows : List A) → Distinct key rows → Distinct key (filter test rows)
  unfolding filter
  Distinct-filter test [] d = tt
  Distinct-filter test (r ∷ rows) (d, ds) = elim (Bool-cases (test r)) [
    | inl e ↦ rw e (has_key-filter test (key r) rows d, Distinct-filter test rows ds)
    | inr e ↦ rw e (Distinct-filter test rows ds)
  ]
