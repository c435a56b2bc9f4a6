-- ===== src/Client/Signing.antt =====
-- apps/cli/src/auth.rs: the signature of a request.
pub mod Accepted
use railyard.Base.{ℕ, Text, List, as_bytes, is_empty}
use railyard.AuthProtocol.{canonical_request}
use railyard.Client.Machine.{Machine, Outside}

pub record SignedRequestHeaders : Type 0 where
  pub key_id : Text
  pub timestamp : ℕ
  pub nonce : Text
  pub content_sha256 : Text
  pub signature : Text

module _ (out : Outside) where
  unfoldable pub generate_signing_key : Machine → List ℕ
  generate_signing_key m = out.random_bytes 32 m

  unfoldable pub public_key_base64 : List ℕ → Text
  public_key_base64 signing_key = out.base64_encode (out.verifying_key signing_key)

  unfoldable pub random_nonce : Machine → Text
  random_nonce m = out.crates.hex_encode (out.random_bytes 16 m)

  unfoldable pub sign_request :
      List ℕ → Text → Text → Text → Text → List ℕ → Machine → SignedRequestHeaders
  unfolding random_nonce
  sign_request signing_key key_id method path_and_query host body m =
      let timestamp = out.unix_timestamp m in
      let nonce = random_nonce m in
      let content_sha256 = out.crates.hex_encode (out.crates.sha256 body) in
      let canonical =
        canonical_request out.crates key_id timestamp nonce method path_and_query host
          content_sha256 in
      record {
        key_id = key_id;
        timestamp = timestamp;
        nonce = nonce;
        content_sha256 = content_sha256;
        signature = out.base64_encode (out.sign signing_key (as_bytes canonical));
      }
