-- ===== src/Client/Init/Names.antt =====
-- The name that `init` makes of a directory's name.
use railyard.Base.{
  ℕ, zero, suc, ◌≤◌, ◌==◌, ◌≡◌, refl, ◌⊎◌, inl, inr, ◌||◌, ◌&&◌, not, is_empty, all, all_iff, Bool,
  true, false, Bool-cases, All, All-append, length, len, len_utf8, starts_with, ends_with, is_lower,
  is_digit, Text, [], ◌∷◌, arith,
}
use railyard.Manifest.Validate.Names.{is_valid_name}
use railyard.Server.Routes.{is_valid_project_name}
use railyard.Client.Lowercase.{to_lowercase}
use railyard.Client.Config.{trim_matches}
use railyard.Client.Config.Names.{
  All-trim_matches, length-trim_matches, starts_with-trim_matches, ends_with-trim_matches,
}
use railyard.Client.Init.{push_char, push_chars, truncate, sanitize_project_name}

abbrev is_label_char : ℕ → Bool
is_label_char c = is_lower c || is_digit c || c == b'-'

abbrev AreLabelChars : Text → Type 0
AreLabelChars s = All (λ c. is_label_char c ≡ true) s

push_char-AreLabelChars :
    (name : Text) (c : ℕ) → AreLabelChars name → AreLabelChars (push_char name c)
unfolding push_char
push_char-AreLabelChars name c h = elim (Bool-cases (is_lower c || is_digit c)) [
  | inl e ↦ rw e (All-append _ name (c ∷ []) h (ground (arith, e), tt))
  | inr e ↦ elim (Bool-cases (not (is_empty name) && not (ends_with b'-' name))) [
    | inl f ↦ rw e (rw f (All-append _ name (b'-' ∷ []) h (refl, tt)))
    | inr f ↦ rw e (rw f h)
  ]
]

push_chars-AreLabelChars : (name s : Text) → AreLabelChars name → AreLabelChars (push_chars name s)
unfolding push_chars
push_chars-AreLabelChars name [] h = h
push_chars-AreLabelChars name (c ∷ s) h =
    push_chars-AreLabelChars (push_char name c) s (push_char-AreLabelChars name c h)

truncate-AreLabelChars : (n : ℕ) (s : Text) → AreLabelChars s → AreLabelChars (truncate n s)
unfolding truncate
truncate-AreLabelChars n [] h = tt
truncate-AreLabelChars zero (c ∷ s) h = tt
truncate-AreLabelChars (suc n) (c ∷ s) (p, h) = (p, truncate-AreLabelChars n s h)

length-truncate : (n : ℕ) (s : Text) → length (truncate n s) ≤ n
unfolding truncate
length-truncate n [] = omega arith
length-truncate zero (c ∷ s) = omega arith
length-truncate (suc n) (c ∷ s) = omega (arith, length-truncate n s)

-- the label's characters are one byte each
len-eq-length : (s : Text) → AreLabelChars s → len s ≡ length s
unfolding len len_utf8
len-eq-length [] h = refl
len-eq-length (c ∷ s) (p, h) = ground (arith, p, len-eq-length s h)

is_valid-intro :
    (name : Text)
    → AreLabelChars name
    → len name ≤ 63
    → starts_with b'-' name ≡ false
    → ends_with b'-' name ≡ false
    → (name ≡ []) ⊎ ((is_valid_name name ≡ true) × (is_valid_project_name name ≡ true))
unfolding is_valid_name is_valid_project_name
is_valid-intro [] chars size start end = inl refl
is_valid-intro (c ∷ s) chars size start end =
    let chars' : all is_label_char (c ∷ s) ≡ true = (all_iff is_label_char (c ∷ s)).1 chars in
    inr (ground (arith, chars', size, start, end), ground (arith, chars', size, start, end))

-- The name that `init` makes of a directory's name is empty, which `init` refuses, or passes both
-- the manifest's check and the server's.
pub sanitize_project_name-valid :
    (raw : Text)
    → (sanitize_project_name raw ≡ [])
      ⊎ ((is_valid_name (sanitize_project_name raw) ≡ true)
          × (is_valid_project_name (sanitize_project_name raw) ≡ true))
unfolding sanitize_project_name
sanitize_project_name-valid raw =
    let pushed = push_chars [] (to_lowercase raw) in
    let cut = truncate 63 pushed in
    let chars =
      All-trim_matches (λ c. is_label_char c ≡ true) b'-' cut
        (truncate-AreLabelChars 63 pushed (push_chars-AreLabelChars [] (to_lowercase raw) tt)) in
    is_valid-intro (trim_matches b'-' cut) chars
      (omega (
        arith,
        len-eq-length (trim_matches b'-' cut) chars,
        length-trim_matches b'-' cut,
        length-truncate 63 pushed,
      ))
      (starts_with-trim_matches b'-' cut) (ends_with-trim_matches b'-' cut)
