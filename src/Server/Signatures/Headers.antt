-- ===== src/Server/Signatures/Headers.antt =====
-- The headers that `checked_request` of apps/server/src/api/auth.rs reads, and the checks that need
-- no state.
use mathlib.Core.Option
use railyard.Base.{
  ℕ, ◌-◌, ◌*◌, ◌++◌, ◌==◌, leb, Bool, Text, txt, text_eq, as_bytes, length, Option, none, some,
  unwrap_or, List, Result, ok, ok_or, ensure, if◌then◌else◌,
}
use railyard.Base.Results.{◌>>=◌, ◌>>◌}
use railyard.AuthProtocol.{Crates, canonical_request}
use railyard.Server.Requests.{HttpRequest}

abbrev pub timestamp_window_seconds : ℕ
timestamp_window_seconds = 300

abbrev pub max_body_bytes : ℕ
max_body_bytes = 4 * 1024 * 1024

-- `u64::abs_diff`
abbrev pub abs_diff : ℕ → ℕ → ℕ
abs_diff a b = if leb a b then b - a else a - b

-- a list of exactly `n` bytes (`try_into` an array)
abbrev sized : ℕ → List ℕ → Option (List ℕ)
sized n bytes = if length bytes == n then some bytes else none

abbrev verifying_key : Crates → List ℕ → Option (List ℕ)
verifying_key crates bytes = if crates.is_verifying_key bytes then some bytes else none

unfoldable pub parse_public_key : Crates → Text → Option (List ℕ)
parse_public_key crates encoded =
    Option.bind (Option.bind (crates.base64_decode encoded) (sized 32)) (verifying_key crates)

unfoldable pub decode_signature : Crates → Text → Result (List ℕ)
decode_signature crates signature =
    ok_or (Option.bind (crates.base64_decode signature) (sized 64))
      (txt "signature is not base64 ed25519")

-- what the headers of a signed request say
pub record SignatureHeaders : Type 0 where
  pub key_id : Text
  pub nonce : Text
  pub content_sha256 : Text
  pub signature : Text
  pub timestamp : ℕ

unfoldable pub header : HttpRequest → Text → Result Text
header request name =
    ok_or (request.header name) (txt "missing or malformed " ++ name ++ txt " header")

unfoldable pub read_headers : Crates → HttpRequest → Result SignatureHeaders
unfolding header
read_headers crates request = do
  version ← header request (txt "x-railyard-signature-version")
  ensure (text_eq version (txt "v1")) (txt "unsupported signature version")
  key_id ← header request (txt "x-railyard-key-id")
  nonce ← header request (txt "x-railyard-nonce")
  content_sha256 ← header request (txt "x-railyard-content-sha256")
  signature ← header request (txt "x-railyard-signature")
  stamp ← header request (txt "x-railyard-timestamp")
  timestamp ← ok_or (crates.parse_u64 stamp) (txt "timestamp is not unix seconds")
  ok (record {
    key_id = key_id;
    nonce = nonce;
    content_sha256 = content_sha256;
    signature = signature;
    timestamp = timestamp;
  })

unfoldable pub in_window : ℕ → ℕ → Bool
in_window now timestamp = leb (abs_diff now timestamp) timestamp_window_seconds

-- the check up to the lookup of the key, with the clock read in between
unfoldable pub opened : Crates → ℕ → HttpRequest → Result SignatureHeaders
unfolding read_headers in_window
opened crates now request = do
  h ← read_headers crates request
  ensure (in_window now h.timestamp) (txt "timestamp outside the allowed window")
  ok h

-- the host that the client signed: the `host` header, or the authority of the URI
unfoldable pub signed_host : HttpRequest → Result Text
signed_host request = elim (request.header (txt "host")) [
  | some host ↦ ok host
  | none ↦ ok_or request.authority (txt "request has no host")
]

-- the text under the signature, as the server puts it together from the request
unfoldable pub canonical_of : Crates → HttpRequest → SignatureHeaders → Text → Text
canonical_of crates request h host =
    canonical_request crates h.key_id h.timestamp h.nonce request.method
      (unwrap_or (txt "/") request.path_and_query) host h.content_sha256

-- from the stored key to the verified signature
unfoldable pub check_signature : Crates → HttpRequest → SignatureHeaders → Text → Result (Unit {0})
unfolding parse_public_key decode_signature signed_host canonical_of
check_signature crates request h stored_key = do
  public_key ← ok_or (parse_public_key crates stored_key) (txt "stored public key is corrupt")
  signature ← decode_signature crates h.signature
  host ← signed_host request
  ensure (crates.verify public_key (as_bytes (canonical_of crates request h host)) signature)
      (txt "signature verification failed")
