-- ===== src/Base/Maps.antt =====
-- A map with text keys (IndexMap, HashMap, BTreeMap) as the list of its entries, a key once.
use Prim.Native.Nat.{suc}
use mathlib.Core.Path.{◌≡◌, refl, sym, ap, ◌∙◌}
use mathlib.Core.Logic.{◌⊎◌, inl, inr}
use mathlib.Core.Bool.{Bool, true, false}
use mathlib.Core.Option.{Option, none, some}
use mathlib.Core.List.{List, [], ◌∷◌, ◌++◌, map}
use native.Mathlib.Omega.{arith}
use railyard.Base.Tests.{if◌then◌else◌, is_some, Bool-cases}
use railyard.Base.Lists.{In, filter, length}
use railyard.Base.Strings.{Text, text_eq, text_eq_iff}

module _ {ℓ} {V : Type ℓ} where
  unfoldable pub get : Text → List (Text × V) → Option V
  get k [] = none
  get k ((j, v) ∷ m) = if text_eq j k then some v else get k m

  abbrev pub contains_key : Text → List (Text × V) → Bool
  contains_key k m = is_some (get k m)

  -- an entry that is there keeps its place
  unfoldable pub insert : Text → V → List (Text × V) → List (Text × V)
  insert k v [] = (k, v) ∷ []
  insert k v ((j, w) ∷ m) =
      let rest = insert k v m in if text_eq j k then (j, v) ∷ m else (j, w) ∷ rest

  pub get-insert :
      (k j : Text) (v : V) (m : List (Text × V))
      → get j (insert k v m) ≡ (if text_eq k j then some v else get j m)
  unfolding get insert
  get-insert k j v [] = refl
  get-insert k j v ((i, w) ∷ m) =
      ground (arith, text_eq_iff k j, text_eq_iff i k, text_eq_iff i j, get-insert k j v m)

  pub get-insert_same :
      (k j : Text) (v : V) (m : List (Text × V))
      → text_eq k j ≡ true
      → get j (insert k v m) ≡ some v
  get-insert_same k j v m e = get-insert k j v m ∙ rw e refl

  pub get-insert_other :
      (k j : Text) (v : V) (m : List (Text × V))
      → text_eq k j ≡ false
      → get j (insert k v m) ≡ get j m
  get-insert_other k j v m e = get-insert k j v m ∙ rw e refl

module _ {V : Type 0} where
  -- what a lookup returns is an entry
  pub get-In : (k : Text) (v : V) (m : List (Text × V)) → get k m ≡ some v → In (k, v) m
  unfolding get
  get-In k v [] h = ground arith
  get-In k v ((j, w) ∷ m) h = grind (arith, text_eq_iff j k, get-In k v m)

abbrev pub keys {ℓ} : {V : Type ℓ} → List (Text × V) → List Text
keys m = map (λ e. e.0) m

abbrev pub values {ℓ} : {V : Type ℓ} → List (Text × V) → List V
values m = map (λ e. e.1) m

module _ {V : Type 0} where
  -- A deletion that spares the entry found leaves it to be found.
  pub get-filter_kept :
      (test : V → Bool) (k : Text) (v : V) (m : List (Text × V))
      → get k m ≡ some v
      → test v ≡ true
      → get k (filter (λ e. test e.1) m) ≡ some v
  unfolding get filter
  get-filter_kept test k v [] h t = h
  get-filter_kept test k v ((j, w) ∷ m) h t = ground (arith, get-filter_kept test k v m)

  pub get-filter_absent :
      (test : V → Bool) (k : Text) (m : List (Text × V))
      → get k m ≡ none
      → get k (filter (λ e. test e.1) m) ≡ none
  unfolding get filter
  get-filter_absent test k [] h = h
  get-filter_absent test k ((j, w) ∷ m) h = ground (arith, get-filter_absent test k m)

  -- A deletion that meets the one entry of a key leaves none.
  pub get-filter-insert :
      (test : V → Bool) (k : Text) (v : V) (m : List (Text × V))
      → get k m ≡ none
      → test v ≡ false
      → get k (filter (λ e. test e.1) (insert k v m)) ≡ none
  unfolding get filter insert
  get-filter-insert test k v [] h t = rw t refl
  get-filter-insert test k v ((j, w) ∷ m) h t = ground (arith, get-filter-insert test k v m)

module _ {V : Type 0} where
  pub In-keys-insert :
      (n k : Text) (v : V) (m : List (Text × V))
      → In n (keys (insert k v m))
      → (n ≡ k) ⊎ In n (keys m)
  unfolding insert
  In-keys-insert n k v [] h = elim h [ inl e ↦ inl e | inr f ↦ absurd f ]
  In-keys-insert n k v ((j, w) ∷ m) h = elim (Bool-cases (text_eq j k)) [
    | inl e ↦ inr (rw e at h)
    | inr e ↦
        let h' : In n (j ∷ keys (insert k v m)) = rw e at h in
        elim h' [
          | inl f ↦ inr (inl f)
          | inr f ↦ elim (In-keys-insert n k v m f) [ inl g ↦ inl g | inr g ↦ inr (inr g) ]
        ]
  ]

  -- a key that a lookup finds is there
  pub In-keys : (k : Text) (m : List (Text × V)) → contains_key k m ≡ true → In k (keys m)
  unfolding get
  In-keys k [] h = cc
  In-keys k ((j, w) ∷ m) h = elim (Bool-cases (text_eq j k)) [
    | inl e ↦ inl (sym ((text_eq_iff j k).0 e))
    | inr e ↦ inr (In-keys k m (rw e at h))
  ]

  pub length-keys : (m : List (Text × V)) → length (keys m) ≡ length m
  length-keys [] = refl
  length-keys (_ ∷ m) = ap suc (length-keys m)

  -- an entry that is found is found in a longer map
  pub get-append_left :
      (k : Text) (v : V) (m n : List (Text × V)) → get k m ≡ some v → get k (m ++ n) ≡ some v
  unfolding get
  get-append_left k v [] n h = cc
  get-append_left k v ((j, w) ∷ m) n h = elim (Bool-cases (text_eq j k)) [
    | inl e ↦ rw e (rw e at h)
    | inr e ↦ rw e (get-append_left k v m n (rw e at h))
  ]
