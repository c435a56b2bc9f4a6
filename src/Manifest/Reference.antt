-- ===== src/Manifest/Reference.antt =====
-- packages/manifest/src/reference.rs: the references `${{ … }}` inside a variable's value.
pub mod Equation
pub mod RoundTrip
use railyard.Base.{
  ℕ, zero, suc, ◌++◌, is_empty, text_eq, Text, txt, trim, strip_prefix, split_once, split_once_str,
  length, Option, none, some, List, [], ◌∷◌, Result, ok, err, if◌then◌else◌,
}

pub data Reference : Type 0 where
  service_host service_port service_url : Text → Reference
  service_env : Text → Text → Reference
  secret : Text → Reference

-- `Reference::service`
unfoldable pub service : Reference → Option Text
service (service_host name) = some name
service (service_port name) = some name
service (service_url name) = some name
service (service_env name _) = some name
service (secret _) = none

unfoldable pub invalid : Text → Text → Text
invalid token reason = txt "invalid reference `" ++ token ++ txt "`: " ++ reason

-- the attribute behind the service's name, `env.` tried last
unfoldable pub parse_env : Text → Text → Option Text → Result Reference
parse_env token name none =
    err
      (invalid token (txt "expected `host`, `port`, `url`, or `env.<KEY>` after the service name"))
parse_env token name (some key) =
    if is_empty key
    then err (invalid token (txt "missing variable name after `env.`"))
    else ok (service_env name key)

unfoldable pub parse_attr : Text → Text → Text → Result Reference
unfolding parse_env
parse_attr token name attr =
    if text_eq attr (txt "host")
    then ok (service_host name)
    else if text_eq attr (txt "port")
    then ok (service_port name)
    else if text_eq attr (txt "url")
    then ok (service_url name)
    else parse_env token name (strip_prefix (txt "env.") attr)

unfoldable pub parse_service : Text → Option (Text × Text) → Result Reference
unfolding parse_attr
parse_service token none =
    err (
      invalid token (txt "expected `services.<name>.host|port|url` or `services.<name>.env.<KEY>`"))
parse_service token (some (name, attr)) =
    if is_empty name
    then err (invalid token (txt "missing service name"))
    else parse_attr token name attr

unfoldable pub parse_named : Text → Option Text → Result Reference
unfolding parse_service
parse_named token none =
    err (invalid token (txt "references must start with `services.` or `secrets.`"))
parse_named token (some rest) = parse_service token (split_once b'.' rest)

unfoldable pub parse_token : Text → Result Reference
unfolding parse_named
parse_token token = elim (strip_prefix (txt "secrets.") token) [
  | some key ↦
      if is_empty key then err (invalid token (txt "missing secret name")) else ok (secret key)
  | none ↦ parse_named token (strip_prefix (txt "services.") token)
]

-- the error of a reference that does not end: `format!` reads `{{` as one brace
unterminated : Text → Text
unterminated after_open =
    txt "invalid reference `${{" ++ after_open ++ txt "`: unterminated `${` (missing `}`)"

unfoldable pub cons_reference : Result Reference → Result (List Reference) → Result (List Reference)
cons_reference (err e) later = err e
cons_reference (ok r) (err e) = err e
cons_reference (ok r) (ok rs) = ok (r ∷ rs)

-- One round of the `while` loop, with what the later rounds return.
unfoldable pub parse_round : (Text → Result (List Reference)) → Text → Result (List Reference)
unfolding unterminated cons_reference
parse_round later rest = elim (split_once_str (txt "${{") rest) [
  | none ↦ ok []
  | some (_, after_open) ↦ elim (split_once_str (txt "}}") after_open) [
    | none ↦ err (unterminated after_open)
    | some (token, behind) ↦ cons_reference (parse_token (trim token)) (later behind)
  ]
]

-- The loop, on fuel.
unfoldable pub parse_loop : ℕ → Text → Result (List Reference)
unfolding parse_round
parse_loop zero rest = ok []
parse_loop (suc fuel) rest = parse_round (parse_loop fuel) rest

-- Every round takes off at least the three characters of `${{`.
unfoldable pub parse_references : Text → Result (List Reference)
unfolding parse_loop
parse_references value = parse_loop (suc (length value)) value
