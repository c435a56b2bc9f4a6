-- ===== src/Client/Config/Names.antt =====
-- The names that config.rs makes of a text.
use mathlib.Core.List.{reverse, reverse-cons, reverse-append, reverse-reverse}
use mathlib.Core.Path.{subst, subst⁻¹}
use railyard.Base.{
  ℕ, ◌==◌, ◌≡◌, ◌⊎◌, refl, sym, ap, ◌∙◌, inl, inr, ◌++◌, Bool, true, false, Bool-cases, All,
  All-append, map, starts_with, ends_with, Text, [], ◌∷◌, length, length-append, ◌≤◌, if◌then◌else◌,
  arith,
}
use railyard.Client.Config.{trim_start_matches, trim_matches, is_server_char, sanitize_server_name}

module _ (P : ℕ → Type 0) where
  All-reverse : (s : Text) → All P s → All P (reverse s)
  All-reverse [] h = tt
  All-reverse (c ∷ s) (p, h) =
      subst⁻¹ (All P) (reverse-cons c s)
        (All-append P (reverse s) (c ∷ []) (All-reverse s h) (p, tt))

  All-trim_start_matches : (p : ℕ) (s : Text) → All P s → All P (trim_start_matches p s)
  unfolding trim_start_matches
  All-trim_start_matches p [] h = tt
  All-trim_start_matches p (c ∷ s) (q, h) = elim (Bool-cases (c == p)) [
    | inl e ↦ rw e (All-trim_start_matches p s h)
    | inr e ↦ rw e (q, h)
  ]

  -- what holds of all characters holds of those that are left
  pub All-trim_matches : (p : ℕ) (s : Text) → All P s → All P (trim_matches p s)
  unfolding trim_matches
  All-trim_matches p s h =
      All-reverse _ (All-trim_start_matches p _ (All-reverse _ (All-trim_start_matches p s h)))

module _ (p : ℕ) where
  starts_with-trim_start_matches : (s : Text) → starts_with p (trim_start_matches p s) ≡ false
  unfolding starts_with trim_start_matches
  starts_with-trim_start_matches [] = refl
  starts_with-trim_start_matches (c ∷ s) = ground (arith, starts_with-trim_start_matches s)

  -- what is trimmed stands in front
  trimmed : (s : Text) → (front : Text) × (s ≡ front ++ trim_start_matches p s)
  unfolding trim_start_matches
  trimmed [] = ([], refl)
  trimmed (c ∷ s) = elim (Bool-cases (c == p)) [
    | inl e ↦ let (front, same) = trimmed s in (c ∷ front, rw e (ap (λ r. c ∷ r) same))
    | inr e ↦ ([], rw e refl)
  ]

  starts_with-append : (s t : Text) → starts_with p (s ++ t) ≡ false → starts_with p s ≡ false
  unfolding starts_with
  starts_with-append [] t h = refl
  starts_with-append (c ∷ s) t h = h

  ends_with-append_one : (s : Text) (c : ℕ) → ends_with p (s ++ c ∷ []) ≡ (p == c)
  unfolding ends_with
  ends_with-append_one [] c = refl
  ends_with-append_one (d ∷ []) c = refl
  ends_with-append_one (d ∷ e ∷ s) c = ends_with-append_one (e ∷ s) c

  length-trim_start_matches : (s : Text) → length (trim_start_matches p s) ≤ length s
  unfolding trim_start_matches
  length-trim_start_matches [] = omega arith
  length-trim_start_matches (c ∷ s) = ground (arith, length-trim_start_matches s)

  length-reverse : (s : Text) → length (reverse s) ≡ length s
  length-reverse [] = refl
  length-reverse (c ∷ s) =
      ap length (reverse-cons c s)
      ∙ length-append (reverse s) (c ∷ [])
      ∙ omega (arith, length-reverse s)

  pub length-trim_matches : (s : Text) → length (trim_matches p s) ≤ length s
  unfolding trim_matches
  length-trim_matches s =
      let start = trim_start_matches p s in
      omega (
        arith,
        length-reverse (trim_start_matches p (reverse start)),
        length-trim_start_matches (reverse start),
        length-reverse start,
        length-trim_start_matches s,
      )

  ends_with-reverse : (s : Text) → ends_with p (reverse s) ≡ starts_with p s
  unfolding starts_with ends_with
  ends_with-reverse [] = refl
  ends_with-reverse (c ∷ s) =
      ap (ends_with p) (reverse-cons c s) ∙ ends_with-append_one (reverse s) c

  pub ends_with-trim_matches : (s : Text) → ends_with p (trim_matches p s) ≡ false
  unfolding trim_matches
  ends_with-trim_matches s = ends_with-reverse _ ∙ starts_with-trim_start_matches _

  pub starts_with-trim_matches : (s : Text) → starts_with p (trim_matches p s) ≡ false
  unfolding trim_matches
  starts_with-trim_matches s =
      let start = trim_start_matches p s in
      let (front, same) = trimmed (reverse start) in
      let whole : start ≡ trim_matches p s ++ reverse front =
        sym (reverse-reverse start)
        ∙ ap reverse same
        ∙ reverse-append front (trim_start_matches p (reverse start)) in
      starts_with-append _ (reverse front)
        (subst (λ t. starts_with p t ≡ false) whole (starts_with-trim_start_matches s))

-- an ASCII digit or letter, `-` or `_`, by its number
abbrev pub IsNameChar : ℕ → Type 0
IsNameChar c =
    ((48 ≤ c) × (c ≤ 57)) ⊎ ((65 ≤ c) × (c ≤ 90)) ⊎ ((97 ≤ c) × (c ≤ 122)) ⊎ (c ≡ 45) ⊎ (c ≡ 95)

-- such characters only, with no `-` at either end
pub record IsServerName (name : Text) : Type 0 where
  pub made_of : All IsNameChar name
  pub start : starts_with b'-' name ≡ false
  pub end : ends_with b'-' name ≡ false

abbrev dashed : Text → Text
dashed raw = map (λ c. if is_server_char c then c else b'-') raw

is_server_char-IsNameChar : (c : ℕ) → is_server_char c ≡ true → IsNameChar c
is_server_char-IsNameChar c h = ground arith

kept_or_dashed : (c : ℕ) (b : Bool) → (b ≡ true → IsNameChar c) → IsNameChar (if b then c else b'-')
kept_or_dashed c true h = h refl
kept_or_dashed c false h = inr (inr (inr (inl refl)))

All-mapped : (raw : Text) → All IsNameChar (dashed raw)
All-mapped [] = tt
All-mapped (c ∷ raw) =
    (kept_or_dashed c (is_server_char c) (is_server_char-IsNameChar c), All-mapped raw)

-- The name of an entry that is made of any text consists of ASCII letters and digits, `-` and `_`,
-- without `-` at its ends.
pub sanitize_server_name-IsServerName : (raw : Text) → IsServerName (sanitize_server_name raw)
unfolding sanitize_server_name
sanitize_server_name-IsServerName raw = record {
  made_of = All-trim_matches IsNameChar b'-' _ (All-mapped raw);
  start = starts_with-trim_matches b'-' (dashed raw);
  end = ends_with-trim_matches b'-' (dashed raw);
}
