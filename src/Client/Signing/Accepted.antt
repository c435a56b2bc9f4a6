-- ===== src/Client/Signing/Accepted.antt =====
-- What the client signs, the server accepts.
use railyard.Base.{
  ℕ, ◌≡◌, refl, ap, ◌∙◌, true, false, Text, txt, text_eq, length, get, get-append_left,
  contains_key, to_ascii_lowercase, some, List, [], ◌∷◌, ok, ok_or, ensure, lift, >>=-eq-ok,
  text_eq_refl,
}
use mathlib.Core.Option
use mathlib.Core.Path.{subst}
use railyard.AuthProtocol.{Crates}
use railyard.Server.Db.Users.{AuthUser, key_owner}
use railyard.Server.Requests.{HttpRequest, ApiState}
use railyard.Server.Signatures.{
  SignatureHeaders, header, read_headers, in_window, parse_public_key, decode_signature,
  signed_host, canonical_of,
}
use railyard.Server.Signatures.{checked_request, retained, verified, body_matches}
use railyard.Server.Signatures.Authentic.{IsSigned}
use railyard.Server.Signatures.Accepted.{checked_request-eq-ok_iff}
use railyard.Client.Machine.{ServerConfig, ClientRequest, Machine, Outside, reads}
use railyard.Client.Config.{read_signing_key}
use railyard.Client.Signing.{SignedRequestHeaders, sign_request, random_nonce, public_key_base64}
use railyard.Client.Http.{header_list, signed_message, prepared, with_port}

-- The server has the message as the client sent it.
pub record IsReceived (out : Outside) (message : ClientRequest) (request : HttpRequest)
    : Type 0 where
  pub method : request.method ≡ message.method
  pub path : request.path_and_query ≡ some (out.urls.from_path message.url)
  pub header : (name : Text) → request.header name ≡ get name message.headers
  pub body : request.body ≡ message.body

-- The request passes the signature check at `now` as one of the user, with a signed hash that is
-- that of its body.
pub record IsAccepted (crates : Crates) (now : ℕ) (request : HttpRequest) (st : ApiState)
    (user : AuthUser) : Type 0 where
  pub checked : HttpRequest
  pub passes : (checked_request crates now request st).0 ≡ ok checked
  pub of_user : checked.user ≡ some user
  pub hash : Text
  pub signed : checked.signed_hash ≡ some hash
  pub matches : body_matches crates hash checked ≡ true

module _ (out : Outside)
    (number_back : (n : ℕ) → out.crates.parse_u64 (out.crates.number n) ≡ some n)
    (base64_back : (bytes : List ℕ)
      → out.crates.base64_decode (out.base64_encode bytes) ≡ some bytes)
    (hex_lower : (bytes : List ℕ)
      → to_ascii_lowercase (out.crates.hex_encode bytes) ≡ out.crates.hex_encode bytes)
    (key_size : (key : List ℕ) → length (out.verifying_key key) ≡ 32)
    (key_valid : (key : List ℕ) → out.crates.is_verifying_key (out.verifying_key key) ≡ true)
    (signature_size : (key message : List ℕ) → length (out.sign key message) ≡ 64)
    (signature_good : (key message : List ℕ)
      → out.crates.verify (out.verifying_key key) message (out.sign key message) ≡ true) where
  parse_public_key-public_key_base64 :
      (key : List ℕ)
      → parse_public_key out.crates (public_key_base64 out key) ≡ some (out.verifying_key key)
  unfolding parse_public_key public_key_base64 Option.bind
  parse_public_key-public_key_base64 key =
      rw (base64_back (out.verifying_key key)) (rw (key_size key) (rw (key_valid key) refl))

  decode_signature-sign :
      (key message : List ℕ)
      → decode_signature out.crates (out.base64_encode (out.sign key message))
        ≡ ok (out.sign key message)
  unfolding decode_signature Option.bind ok_or
  decode_signature-sign key message =
      rw (base64_back (out.sign key message)) (rw (signature_size key message) refl)

  module _ (key : List ℕ) (server : ServerConfig) (method url host : Text) (content_type : Text)
      (m : Machine) where
    abbrev message : List ℕ → ClientRequest
    message body = signed_message out key server method url host body content_type m

    abbrev signed_headers : List ℕ → SignedRequestHeaders
    signed_headers body =
        sign_request out key server.key_id method (out.urls.from_path url) host body m

    abbrev read_as : List ℕ → SignatureHeaders
    read_as body =
        let signed = signed_headers body in
        record {
          key_id = server.key_id;
          nonce = random_nonce out m;
          content_sha256 = out.crates.hex_encode (out.crates.sha256 body);
          signature = signed.signature;
          timestamp = out.unix_timestamp m;
        }

    -- a header but that of the type of the content
    get-message :
        (body : List ℕ) (name value : Text)
        → get name (header_list out (signed_headers body) host) ≡ some value
        → get name (message body).headers ≡ some value
    unfolding signed_message
    get-message [] name value e = e
    get-message (b ∷ body) name value e =
        get-append_left name value (header_list out (signed_headers (b ∷ body)) host) _ e

    module _ (body : List ℕ) (request : HttpRequest)
        (r : IsReceived out (message body) request) where
      header-of :
          (name value : Text)
          → get name (header_list out (signed_headers body) host) ≡ some value
          → request.header name ≡ some value
      header-of name value e = r.header name ∙ get-message body name value e

      read_headers-message : read_headers out.crates request ≡ ok (read_as body)
      unfolding read_headers header header_list sign_request get text_eq txt ok_or ensure
      read_headers-message = rw (header-of (txt "x-railyard-signature-version") _ refl) (
          rw (header-of (txt "x-railyard-key-id") _ refl) (
            rw (header-of (txt "x-railyard-nonce") _ refl) (
              rw (header-of (txt "x-railyard-content-sha256") _ refl) (
                rw (header-of (txt "x-railyard-signature") _ refl) (
                  rw (header-of (txt "x-railyard-timestamp") _ refl)
                    (rw (number_back (out.unix_timestamp m)) refl))))))

      IsSigned-message : IsSigned out.crates request (read_as body) (public_key_base64 out key)
      unfolding signed_host canonical_of sign_request header_list get text_eq txt signed_message
      IsSigned-message = record {
        public_key = out.verifying_key key;
        signature = _;
        host = host;
        stored = parse_public_key-public_key_base64 key;
        decoded = decode_signature-sign key _;
        signed_for = rw (header-of (txt "host") host refl, signed_host) refl;
        verifies = rw r.method (rw r.path (signature_good key _));
      }

      -- for a key of a user, in the window, and with a nonce that the server does not hold
      pub signed_message-IsAccepted :
          (now : ℕ) (st : ApiState) (user : AuthUser)
          → (key_owner server.key_id st.db).0 ≡ ok (some (public_key_base64 out key, user))
          → in_window now (out.unix_timestamp m) ≡ true
          → contains_key (random_nonce out m) (retained now st.seen_nonces) ≡ false
          → IsAccepted out.crates now request st user
      unfolding body_matches signed_message
      signed_message-IsAccepted now st user owned timely fresh = record {
        checked = verified request (read_as body) user;
        passes = (checked_request-eq-ok_iff out.crates now request st _).1 (record {
          headers = read_as body;
          stored_key = public_key_base64 out key;
          user = user;
          read = read_headers-message;
          timely = timely;
          owned = owned;
          signed = IsSigned-message;
          fresh = fresh;
          passed_on = refl;
        });
        of_user = refl;
        hash = out.crates.hex_encode (out.crates.sha256 body);
        signed = ap some (hex_lower (out.crates.sha256 body));
        matches = rw r.body (text_eq_refl (out.crates.hex_encode (out.crates.sha256 body)));
      }

  -- A request that the client has prepared with a key is accepted as one of the key's user, if it
  -- arrives as it was sent, within the window and with a nonce that the server does not hold; its
  -- signed hash is that of its body. The conditions on the libraries: a number, and base64, read back
  -- as written; hexadecimal is in lower case; keys are valid and of 32 bytes, signatures of 64; and
  -- a signature verifies under the key's public half.
  pub prepared-IsAccepted :
      (server : ServerConfig) (method suffix : Text) (body : List ℕ) (content_type : Text)
      (m : Machine) (key : List ℕ) (message : ClientRequest) (request : HttpRequest) (now : ℕ)
      (st : ApiState) (user : AuthUser)
      → read_signing_key out server.private_key_path m ≡ ok key
      → (prepared out server method suffix body content_type m).0 ≡ ok message
      → IsReceived out message request
      → (key_owner server.key_id st.db).0 ≡ ok (some (public_key_base64 out key, user))
      → in_window now (out.unix_timestamp m) ≡ true
      → contains_key (random_nonce out m) (retained now st.seen_nonces) ≡ false
      → IsAccepted out.crates now request st user
  unfolding prepared reads lift
  prepared-IsAccepted server method suffix body content_type m key message request now st user
        key_read sent received owned timely fresh =
      let (key', read, e₁, _) = >>=-eq-ok _ _ m sent in
      let (_, _, e₂, _) = >>=-eq-ok _ _ m e₁ in
      let (url, _, e₃, _) = >>=-eq-ok _ _ m e₂ in
      let (name, _, e₄, _) = >>=-eq-ok _ _ m e₃ in
      let host = with_port out name (out.urls.port url) in
      let same_key : key' ≡ key = cc (key_read, read) in
      let same : message ≡ signed_message out key server method url host body content_type m =
        cc (e₄, same_key) in
      signed_message-IsAccepted key server method url host content_type m body request
        (subst (λ x. IsReceived out x request) same received) now st user owned timely fresh
