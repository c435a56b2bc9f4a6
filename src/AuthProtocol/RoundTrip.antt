-- ===== src/AuthProtocol/RoundTrip.antt =====
-- An invite blob parses back, also with blanks around it taken off.
use mathlib.Core.List.{reverse, reverse_aux, reverse-reverse}
use railyard.Base.{
  ℕ, ◌≡◌, refl, ap, ◌∙◌, ◌++◌, false, All, All-append, Text, txt, trim, trim_start, is_whitespace,
  strip_prefix, some, List, [], ◌∷◌, ok, arith,
}
use railyard.AuthProtocol.{Crates, InvitePayload, invite_blob_prefix, encode, parse, from_json}

abbrev pub IsSolid : Text → Type 0
IsSolid s = All (λ c. is_whitespace c ≡ false) s

All-reverse_aux : (s t : Text) → IsSolid s → IsSolid t → IsSolid (reverse_aux s t)
All-reverse_aux [] t h k = k
All-reverse_aux (c ∷ s) t (p, h) k = All-reverse_aux s (c ∷ t) h (p, k)

All-reverse : (s : Text) → IsSolid s → IsSolid (reverse s)
All-reverse s h = All-reverse_aux s [] h tt

trim_start-IsSolid : (s : Text) → IsSolid s → trim_start s ≡ s
unfolding trim_start
trim_start-IsSolid [] h = refl
trim_start-IsSolid (c ∷ s) (p, h) = rw p refl

-- nothing is taken off a text without blanks
trim-IsSolid : (s : Text) → IsSolid s → trim s ≡ s
unfolding trim
trim-IsSolid s h =
    ap (λ t. reverse (trim_start (reverse t))) (trim_start-IsSolid s h)
    ∙ ap reverse (trim_start-IsSolid (reverse s) (All-reverse s h))
    ∙ reverse-reverse s

strip_prefix-append : (p s : Text) → strip_prefix p (p ++ s) ≡ some s
unfolding strip_prefix
strip_prefix-append [] s = refl
strip_prefix-append (c ∷ p) s = ground (arith, strip_prefix-append p s)

prefix-IsSolid : IsSolid invite_blob_prefix
unfolding invite_blob_prefix txt is_whitespace
prefix-IsSolid = (
  refl,
  (
    refl,
    (
      refl,
      (refl, (refl, (refl, (refl, (refl, (refl, (refl, (refl, (refl, (refl, (refl, tt))))))))))),
    ),
  ),
)

parse-prefixed :
    (crates : Crates) (blob encoded : Text)
    → trim blob ≡ invite_blob_prefix ++ encoded
    → parse crates blob ≡ from_json crates (crates.url_safe_decode encoded)
unfolding parse
parse-prefixed crates blob encoded bare =
    rw (bare, parse) (rw (strip_prefix-append invite_blob_prefix encoded) refl)

-- A blob parses back to its payload, where base64 reads back what it wrote, JSON reads back the
-- payload, and base64 writes it without blanks.
pub parse-encode :
    (crates : Crates) (payload : InvitePayload)
    → ((bytes : List ℕ) → crates.url_safe_decode (crates.url_safe_encode bytes) ≡ some bytes)
    → crates.invite_from_json (crates.invite_to_json payload) ≡ some payload
    → IsSolid (crates.url_safe_encode (crates.invite_to_json payload))
    → parse crates (encode crates payload) ≡ ok payload
unfolding encode from_json
parse-encode crates payload decodes reads solid =
    let json = crates.invite_to_json payload in
    let blob = invite_blob_prefix ++ crates.url_safe_encode json in
    parse-prefixed crates blob (crates.url_safe_encode json)
      (trim-IsSolid blob (All-append _ invite_blob_prefix _ prefix-IsSolid solid))
    ∙ rw (decodes json) (rw (reads, from_json) refl)
