-- ===== src/Manifest/Reference/RoundTrip.antt =====
-- References print and parse back.
use railyard.Base.{
  ℕ, ◌≡◌, refl, ◌∙◌, false, ◌++◌, is_empty, text_eq, Text, txt, strip_prefix, split_once, contains,
  some, [], ◌∷◌, ok, arith,
}
use railyard.Manifest.Reference.{
  Reference, service_host, service_port, service_url, service_env, secret, parse_token, parse_named,
  parse_service, parse_attr, parse_env,
}

-- the reference as it is written between the braces
unfoldable pub render : Reference → Text
render (service_host name) = txt "services." ++ (name ++ txt ".host")
render (service_port name) = txt "services." ++ (name ++ txt ".port")
render (service_url name) = txt "services." ++ (name ++ txt ".url")
render (service_env name key) = txt "services." ++ (name ++ (txt ".env." ++ key))
render (secret key) = txt "secrets." ++ key

-- Names and keys are there, and a service's name has no dot.
abbrev pub IsNamed : Text → Type 0
IsNamed name = (is_empty name ≡ false) × (contains b'.' name ≡ false)

abbrev pub IsWritable : Reference → Type 0
IsWritable (service_host name) = IsNamed name
IsWritable (service_port name) = IsNamed name
IsWritable (service_url name) = IsNamed name
IsWritable (service_env name key) = IsNamed name × (is_empty key ≡ false)
IsWritable (secret key) = is_empty key ≡ false

split_once-append :
    (p : ℕ) (name attr : Text)
    → contains p name ≡ false
    → split_once p (name ++ p ∷ attr) ≡ some (name, attr)
unfolding split_once contains
split_once-append p [] attr h = ground arith
split_once-append p (c ∷ name) attr h = ground (arith, split_once-append p name attr)

-- a service's attribute, behind its name
parse_service-append :
    (token name attr : Text)
    → IsNamed name
    → parse_named token (some (name ++ b'.' ∷ attr)) ≡ parse_attr token name attr
unfolding parse_named parse_service
parse_service-append token name attr (there, plain) =
    rw (split_once-append b'.' name attr plain, parse_service) (rw there refl)

parse_env-render :
    (name key : Text)
    → is_empty key ≡ false
    → parse_attr (render (service_env name key)) name (txt "env." ++ key)
      ≡ ok (service_env name key)
unfolding parse_attr parse_env render txt strip_prefix text_eq
parse_env-render name key there = rw there refl

-- Every reference whose names can be written parses back from what is written.
pub parse_token-render : (r : Reference) → IsWritable r → parse_token (render r) ≡ ok r
unfolding parse_token render txt strip_prefix text_eq parse_attr
parse_token-render (service_host name) h = parse_service-append _ name (txt "host") h
parse_token-render (service_port name) h = parse_service-append _ name (txt "port") h
parse_token-render (service_url name) h = parse_service-append _ name (txt "url") h
parse_token-render (service_env name key) (h, there) =
    parse_service-append (render (service_env name key)) name (txt "env." ++ key) h
    ∙ parse_env-render name key there
parse_token-render (secret key) h = rw h refl
