-- ===== src/Server/Signatures/Checks.antt =====
-- `checked_request`, the middleware and the redemption endpoint of apps/server/src/api/auth.rs.
use railyard.Base.{
  ℕ, ltb, leb, not, Bool, Text, txt, text_eq, to_ascii_lowercase, length, filter, insert,
  contains_key, Option, none, some, is_none, List, Result, ok, err, ok_or, ensure, Stateful, pure,
  lift, ◌>>=◌, ◌>>◌, ◌++◌,
}
use railyard.AuthProtocol.{Crates, RedeemInviteRequest}
use railyard.Server.Db.Users.{AuthUser, key_owner}
use railyard.Server.Db.Invites
use railyard.Server.Db.Invites.{token_hash}
use railyard.Server.Requests.{
  HttpRequest, ApiState, Handler, redeemed, respond, bare, json, on_db, refuse_if, with_db,
}
use railyard.Server.Signatures.Headers.{
  SignatureHeaders, opened, abs_diff, timestamp_window_seconds, max_body_bytes, check_signature,
  parse_public_key,
}

-- a failed lookup is logged and answered without its cause
abbrev pub found_key : Result (Option (Text × AuthUser)) → Result (Text × AuthUser)
found_key (err _) = err (txt "key lookup failed")
found_key (ok owner) = ok_or owner (txt "unknown or revoked key")

unfoldable pub identify : Text → Stateful ApiState (Text × AuthUser)
unfolding on_db
identify key_id st = let (r, st') = on_db (key_owner key_id) st in (found_key r, st')

-- the nonces that the map still holds at `now`
unfoldable pub retained : ℕ → List (Text × ℕ) → List (Text × ℕ)
retained now seen = filter (λ e. leb (abs_diff now e.1) timestamp_window_seconds) seen

unfoldable pub record_nonce : ℕ → Text → Stateful ApiState (Unit {0})
unfolding retained
record_nonce now nonce st = (
  ensure (not (contains_key nonce (retained now st.seen_nonces))) (txt "nonce already used"),
  record st { seen_nonces = insert nonce now (retained now st.seen_nonces) },
)

-- the extensions that a verified request carries on
abbrev pub verified : HttpRequest → SignatureHeaders → AuthUser → HttpRequest
verified request h user = record request {
  signed_hash = some (to_ascii_lowercase h.content_sha256);
  user = some user;
}

-- the check from the lookup of the key on, with the time that was read before it; nothing is
-- awaited here, and the replay map is locked once
unfoldable pub closing :
    Crates
    → (now : ℕ) → HttpRequest
    → SignatureHeaders
    → (owner : Text × AuthUser) → Stateful ApiState HttpRequest
unfolding record_nonce
closing crates now request h owner = do
  lift (check_signature crates request h owner.0)
  record_nonce now h.nonce
  pure (verified request h owner.1)

unfoldable pub checked_request : Crates → ℕ → HttpRequest → Stateful ApiState HttpRequest
unfolding identify closing
checked_request crates now request = do
  h ← lift (opened crates now request)
  owner ← identify h.key_id
  closing crates now request h owner

-- the rest of the request, or the refusal
unfoldable pub proceed : (HttpRequest → Handler) → Result HttpRequest → Handler
proceed next (ok request) st = next request st
proceed next (err reason) st = (respond 401 (txt "unauthorized: " ++ reason), st)

unfoldable pub verify_signature : Crates → ℕ → HttpRequest → (HttpRequest → Handler) → Handler
unfolding proceed
verify_signature crates now request next st =
    let (checked, st') = checked_request crates now request st in proceed next checked st'

unfoldable pub body_matches : Crates → Text → HttpRequest → Bool
body_matches crates expected request =
    text_eq (crates.hex_encode (crates.sha256 request.body)) expected

unfoldable pub check_body : Crates → Text → HttpRequest → Handler → Handler
unfolding body_matches
check_body crates expected request next =
    refuse_if (ltb max_body_bytes (length request.body))
      (respond 400 (txt "failed to read request body"))
      (refuse_if (not (body_matches crates expected request))
        (respond 401 (txt "unauthorized: body does not match content hash")) next)

unfoldable pub verify_body_hash : Crates → HttpRequest → (HttpRequest → Handler) → Handler
unfolding check_body
verify_body_hash crates request next = elim request.signed_hash [
  | none ↦ next request
  | some expected ↦ check_body crates expected request (next request)
]

unfoldable pub redeemed_response : Result (Option Text) → Handler
redeemed_response (ok (some id)) st = (json (redeemed id), st)
redeemed_response (ok none) st =
    (respond 401 (txt "invite is invalid, expired, or already redeemed"), st)
redeemed_response (err error) st = (bare 500, st)

unfoldable pub redeem_invite : Crates → ℕ → RedeemInviteRequest → Handler
unfolding redeemed_response with_db
redeem_invite crates now request =
    refuse_if (is_none (parse_public_key crates request.public_key))
      (respond 400 (txt "public_key must be a base64 ed25519 public key"))
      (with_db
        (Invites.redeem_invite (token_hash crates request.invite_token) request.public_key now)
        redeemed_response)
