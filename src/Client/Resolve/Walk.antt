-- ===== src/Client/Resolve/Walk.antt =====
-- The walk of `find_manifest` from a directory to the nearest manifest.
use railyard.Base.{
  ℕ, zero, suc, ◌+◌, ◌<◌, ◌==◌, ◌≡◌, ◌↔◌, refl, ap, ◌∙◌, Bool-cases, length, Text, txt, Option,
  none, some, Option-cases, inl, inr, [], ◌∷◌, ok, err, Result-cases, arith,
}
use railyard.Client.Paths.{rsplit_once, before_slash, parent}
use railyard.Client.Machine.{Machine, Outside}
use railyard.Client.Resolve.Manifests.{manifest_in, find_manifest_from, find_manifest}

rsplit_once-length :
    (p : ℕ) (s a b : Text) → rsplit_once p s ≡ some (a, b) → length s ≡ suc (length a + length b)
unfolding rsplit_once
rsplit_once-length p [] a b h = cc
rsplit_once-length p (c ∷ s) a b h = elim (Option-cases (rsplit_once p s)) [
  | inl e ↦ elim (Bool-cases (c == p)) [
    | inl f ↦
        let h' : ◌≡◌ {A = Option (Text × Text)} (some ([], s)) (some (a, b)) = rw (e, f) at h in
        let left : [] ≡ a = cc in
        let right : s ≡ b = cc in omega (arith, ap length left, ap length right)
    | inr f ↦ let h' : ◌≡◌ {A = Option (Text × Text)} none (some (a, b)) = rw (e, f) at h in cc
  ]
  | inr ((a', b'), e) ↦
      let h' : ◌≡◌ {A = Option (Text × Text)} (some (c ∷ a', b')) (some (a, b)) = rw e at h in
      let left : c ∷ a' ≡ a = cc in
      let right : b' ≡ b = cc in
      omega (arith, rsplit_once-length p s a' b' e, ap length left, ap length right)
]

before_slash-shorter :
    (s up : Text) (o : Option (Text × Text))
    → rsplit_once b'/' s ≡ o
    → 0 < length s
    → before_slash o ≡ some up
    → length up < length s
unfolding before_slash txt
before_slash-shorter s up none e long h = let same : [] ≡ up = cc in omega (arith, ap length same)
before_slash-shorter s up (some ([], [])) e long h = cc
before_slash-shorter s up (some ([], c ∷ b)) e long h =
    let same : txt "/" ≡ up = cc in
    omega (arith, ap length same, rsplit_once-length b'/' s [] (c ∷ b) e)
before_slash-shorter s up (some (c ∷ a, b)) e long h =
    let same : c ∷ a ≡ up = cc in
    omega (arith, ap length same, rsplit_once-length b'/' s (c ∷ a) b e)

parent-shorter : (dir up : Text) → parent dir ≡ some up → length up < length dir
unfolding parent
parent-shorter [] up h = cc
parent-shorter (c ∷ dir) up h =
    before_slash-shorter (c ∷ dir) up (rsplit_once b'/' (c ∷ dir)) refl (omega arith) h

module _ (out : Outside) (m : Machine) where
  -- from a directory up to another, past directories that have no manifest
  pub data Climb : Text → Text → Type 0 where
    here : {dir : Text} → Climb dir dir
    up :
        {dir above top : Text}
        → manifest_in out dir m ≡ ok none
        → parent dir ≡ some above
        → Climb above top
        → Climb dir top

  abbrev pub Nearest : Text → Text × Text → Type 0
  Nearest start found = (dir : Text) × Climb start dir × (manifest_in out dir m ≡ ok (some found))

  from-Nearest :
      (fuel : ℕ) (start : Text) (found : Text × Text)
      → find_manifest_from out fuel start m ≡ ok (some found)
      → Nearest start found
  unfolding find_manifest_from
  from-Nearest zero start found h = cc
  from-Nearest (suc fuel) start found h = elim (Result-cases (manifest_in out start m)) [
    | inr (why, e) ↦ let h' : err why ≡ ok (some found) = rw (e, find_manifest_from) at h in cc
    | inl (some f, e) ↦
        let h' : ok (some f) ≡ ok (some found) = rw (e, find_manifest_from) at h in
        (start, here, e ∙ h')
    | inl (none, e) ↦ elim (Option-cases (parent start)) [
      | inl top ↦ let h' : ok none ≡ ok (some found) = rw (e, top, find_manifest_from) at h in cc
      | inr (above, p) ↦
          let h' : find_manifest_from out fuel above m ≡ ok (some found) =
            rw (e, p, find_manifest_from) at h in
          let (dir, climb, last) = from-Nearest fuel above found h' in (dir, up e p climb, last)
    ]
  ]

  Nearest-from :
      (fuel : ℕ) (start dir : Text) (found : Text × Text)
      → length start < fuel
      → Climb start dir
      → manifest_in out dir m ≡ ok (some found)
      → find_manifest_from out fuel start m ≡ ok (some found)
  unfolding find_manifest_from
  Nearest-from zero start dir found less c last = absurd (omega arith)
  Nearest-from (suc fuel) start dir found less here last = rw (last, find_manifest_from) refl
  Nearest-from (suc fuel) start dir found less (up {above = above} e p c) last =
      rw (e, p, find_manifest_from)
        (Nearest-from fuel above dir found (omega (arith, parent-shorter start above p)) c last)

  -- A manifest is found exactly if it is that of the nearest directory, from the start up, that has
  -- one: every directory passed on the way has none. The walk ends by itself.
  pub find_manifest_iff :
      (start : Text) (found : Text × Text)
      → (find_manifest out start m ≡ ok (some found)) ↔ Nearest start found
  unfolding find_manifest
  find_manifest_iff start found = (
    from-Nearest (suc (length start)) start found,
    λ n. Nearest-from (suc (length start)) start n.0 found (omega arith) n.1 n.2,
  )
