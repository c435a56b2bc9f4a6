-- ===== src/AuthProtocol.antt =====
-- packages/auth: the text that a request's signature covers, the invite blob, and the external
-- crates that the signing and the server rest on, as parameters.
pub mod RoundTrip
use railyard.Base.{
  Bool, ℕ, ◌++◌, Text, txt, strip_prefix, trim, Option, none, some, List, Result, ok, err,
}

pub record InviteProject : Type 0 where
  pub id : Text
  pub name : Text

pub record InvitePayload : Type 0 where
  pub server_url : Text
  pub server_name : Text
  pub user_id : Text
  pub user_name : Text
  pub project : Option InviteProject
  pub invite_token : Text
  pub expires_at : ℕ

pub record RedeemInviteRequest : Type 0 where
  pub invite_token : Text
  pub public_key : Text

-- The crates hex, sha2, base64 (its standard and its URL-safe alphabet), ed25519-dalek and
-- serde_json as the program calls them; a verifying key is its 32 bytes. `number` is the decimal
-- spelling of a number by `format!`, `parse_u64` its parser, `debug` the spelling of a text by `{:?}`.
pub record Crates : Type 0 where
  pub hex_encode : List ℕ → Text
  pub sha256 : List ℕ → List ℕ
  pub base64_decode : Text → Option (List ℕ)
  pub url_safe_encode : List ℕ → Text
  pub url_safe_decode : Text → Option (List ℕ)
  pub is_verifying_key : List ℕ → Bool
  pub verify : List ℕ → List ℕ → List ℕ → Bool
  pub invite_to_json : InvitePayload → List ℕ
  pub invite_from_json : List ℕ → Option InvitePayload
  pub number : ℕ → Text
  pub parse_u64 : Text → Option ℕ
  pub debug : Text → Text

unfoldable pub invite_blob_prefix : Text
invite_blob_prefix = txt "ryd-invite-v1."

unfoldable pub not_an_invite : Text
not_an_invite = txt "not a valid ryd-invite-v1.* invite blob"

module _ (crates : Crates) where
  unfoldable pub encode : InvitePayload → Text
  encode payload = invite_blob_prefix ++ crates.url_safe_encode (crates.invite_to_json payload)

  unfoldable pub from_json : Option (List ℕ) → Result InvitePayload
  from_json none = err not_an_invite
  from_json (some json) = elim (crates.invite_from_json json) [
    | none ↦ err not_an_invite
    | some payload ↦ ok payload
  ]

  unfoldable pub parse : Text → Result InvitePayload
  unfolding from_json not_an_invite
  parse blob = elim (strip_prefix invite_blob_prefix (trim blob)) [
    | none ↦ err not_an_invite
    | some encoded ↦ from_json (crates.url_safe_decode encoded)
  ]

  unfoldable pub canonical_request : Text → ℕ → Text → Text → Text → Text → Text → Text
  canonical_request key_id timestamp nonce method path_and_query host content_sha256 =
      txt "RAILYARD-REQUEST-V1\nkey_id:"
      ++ key_id
      ++ txt "\ntimestamp:"
      ++ crates.number timestamp
      ++ txt "\nnonce:"
      ++ nonce
      ++ txt "\nmethod:"
      ++ method
      ++ txt "\npath:"
      ++ path_and_query
      ++ txt "\nhost:"
      ++ host
      ++ txt "\ncontent_sha256:"
      ++ content_sha256
