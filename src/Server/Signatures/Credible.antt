-- ===== src/Server/Signatures/Credible.antt =====
-- The signature check against a description of the signed request that does not use its steps: the
-- headers by their names, the signed text line by line, the times and the nonces as numbers.
use mathlib.Core.Option
use mathlib.Core.Path.{subst, subst⁻¹}
use railyard.Base.{
  ℕ, ◌+◌, ◌≤◌, ◌<◌, ◌≡◌, ◌≢◌, All, leb, filter, ◌⊎◌, ◌↔◌, refl, sym, ap, true, false, Bool-cases,
  Text, txt, text_eq, text_eq_iff, as_bytes, length, get, contains_key, to_ascii_lowercase,
  Option-cases, none, some, List, [], ◌∷◌, ok, inl, inr, unwrap_or, ok_or, arith,
}
use railyard.AuthProtocol.{Crates}
use railyard.Server.Db.Users.{AuthUser, key_owner}
use railyard.Server.Requests.{HttpRequest, ApiState}
use railyard.Server.Signatures.Headers.{
  SignatureHeaders, in_window, abs_diff, parse_public_key, decode_signature, signed_host,
  canonical_of,
}
use railyard.Server.Signatures.Checks.{checked_request, retained}
use railyard.Server.Signatures.Authentic.{IsAuthentic}
use railyard.Server.Signatures.Accepted.{checked_request-eq-ok_iff}
use railyard.Server.Signatures.Signed.{
  HasHeaders, signed_text, read_headers-HasHeaders, HasHeaders-read_headers, signed_text-canonical,
}

-- no entry of the nonce has been noted within 300 seconds
abbrev pub Unseen : ℕ → Text → List (Text × ℕ) → Type 0
Unseen now nonce seen =
    All (λ entry. (entry.0 ≢ nonce) ⊎ (entry.1 + 300 < now) ⊎ (now + 300 < entry.1)) seen

-- a key of 32 bytes that the library takes
abbrev pub IsKey : Crates → Text → List ℕ → Type 0
IsKey crates text key =
    (crates.base64_decode text ≡ some key)
    × (length key ≡ 32)
    × (crates.is_verifying_key key ≡ true)

abbrev pub IsSignature : Crates → Text → List ℕ → Type 0
IsSignature crates text signature =
    (crates.base64_decode text ≡ some signature) × (length signature ≡ 64)

abbrev pub IsHost : HttpRequest → Text → Type 0
IsHost request host =
    (request.header (txt "host") ≡ some host)
    ⊎ ((request.header (txt "host") ≡ none) × (request.authority ≡ some host))

abbrev pub IsPath : HttpRequest → Text → Type 0
IsPath request path =
    (request.path_and_query ≡ some path) ⊎ ((request.path_and_query ≡ none) × (path ≡ txt "/"))

-- What a request that passes has shown at `now`, in the state before.
pub record IsCredible (crates : Crates) (now : ℕ) (request checked : HttpRequest) (st : ApiState)
    : Type 0 where
  pub headers : SignatureHeaders
  pub complete : HasHeaders crates request headers
  pub not_early : headers.timestamp ≤ now + 300
  pub not_late : now ≤ headers.timestamp + 300
  pub stored_key : Text
  pub user : AuthUser
  pub owned : (key_owner headers.key_id st.db).0 ≡ ok (some (stored_key, user))
  pub public_key : List ℕ
  pub key_read : IsKey crates stored_key public_key
  pub signature : List ℕ
  pub signature_read : IsSignature crates headers.signature signature
  pub host : Text
  pub sent_to : IsHost request host
  pub path : Text
  pub asked_for : IsPath request path
  pub verifies :
      crates.verify public_key (as_bytes (signed_text crates request headers path host)) signature
      ≡ true
  pub unseen : Unseen now headers.nonce st.seen_nonces
  pub passed_on : checked ≡ record request {
    signed_hash = some (to_ascii_lowercase headers.content_sha256);
    user = some user;
  }

in_window_iff :
    (now stamp : ℕ) → (in_window now stamp ≡ true) ↔ ((stamp ≤ now + 300) × (now ≤ stamp + 300))
unfolding in_window
in_window_iff now stamp = ground arith

parse_public_key_iff :
    (crates : Crates) (text : Text) (key : List ℕ)
    → (parse_public_key crates text ≡ some key) ↔ IsKey crates text key
unfolding parse_public_key Option.bind
parse_public_key_iff crates text key = elim (Option-cases (crates.base64_decode text)) [
  | inl e ↦ rw e ground arith
  | inr (bytes, e) ↦ rw e ground arith
]

decode_signature_iff :
    (crates : Crates) (text : Text) (signature : List ℕ)
    → (decode_signature crates text ≡ ok signature) ↔ IsSignature crates text signature
unfolding decode_signature Option.bind ok_or
decode_signature_iff crates text signature = elim (Option-cases (crates.base64_decode text)) [
  | inl e ↦ rw e ground arith
  | inr (bytes, e) ↦ rw e ground arith
]

signed_host_iff :
    (request : HttpRequest) (host : Text) → (signed_host request ≡ ok host) ↔ IsHost request host
unfolding signed_host ok_or
signed_host_iff request host = ground arith

far_iff : (now s : ℕ) → (leb (abs_diff now s) 300 ≡ false) ↔ ((s + 300 < now) ⊎ (now + 300 < s))
far_iff now s = ground arith

Unseen-retained :
    (now : ℕ) (nonce : Text) (seen : List (Text × ℕ))
    → (contains_key nonce (retained now seen) ≡ false) ↔ Unseen now nonce seen
unfolding retained filter get
Unseen-retained now nonce [] = (λ _. tt, λ _. refl)
Unseen-retained now nonce ((n, s) ∷ seen) =
    let rest = Unseen-retained now nonce seen in
    elim (Bool-cases (leb (abs_diff now s) 300)) [
      | inr dropped ↦ rw dropped (λ h. (inr ((far_iff now s).0 dropped), rest.0 h), λ h. rest.1 h.1)
      | inl kept ↦ elim (Bool-cases (text_eq n nonce)) [
        | inl same ↦
            rw (kept, same)
              (
                λ h. absurd (cc h),
                λ h. elim h.0 [
                  | inl apart ↦ absurd (apart ((text_eq_iff n nonce).0 same))
                  | inr far ↦ absurd (cc (kept, (far_iff now s).1 far))
                ],
              )
        | inr f ↦
            rw (kept, f)
              (λ h. (inl (λ e. cc ((text_eq_iff n nonce).1 e, f)), rest.0 h), λ h. rest.1 h.1)
      ]
    ]

IsPath-unwrap_or :
    (request : HttpRequest) (path : Text)
    → (unwrap_or (txt "/") request.path_and_query ≡ path) ↔ IsPath request path
IsPath-unwrap_or request path = elim (Option-cases request.path_and_query) [
  | inl e ↦ rw e (λ h. inr (refl, sym h), λ h. elim h [ inl f ↦ cc | inr (_, f) ↦ sym f ])
  | inr (p, e) ↦ rw e (λ h. inl (ap some h), λ h. elim h [ inl f ↦ cc | inr (f, _) ↦ cc ])
]

canonical_of-signed_text :
    (crates : Crates) (request : HttpRequest) (h : SignatureHeaders) (path host : Text)
    → IsPath request path
    → canonical_of crates request h host ≡ signed_text crates request h path host
unfolding canonical_of
canonical_of-signed_text crates request h path host p =
    rw ((IsPath-unwrap_or request path).1 p) (signed_text-canonical crates request h path host)

module _ (crates : Crates) (now : ℕ) (request checked : HttpRequest) (st : ApiState) where
  IsAuthentic-IsCredible :
      IsAuthentic crates now request checked st → IsCredible crates now request checked st
  IsAuthentic-IsCredible a =
      let h = a.headers in
      let window = (in_window_iff now h.timestamp).0 a.timely in
      let path = unwrap_or (txt "/") request.path_and_query in
      let addressed = (IsPath-unwrap_or request path).0 refl in
      record {
        headers = h;
        complete = read_headers-HasHeaders crates request h a.read;
        not_early = window.0;
        not_late = window.1;
        stored_key = a.stored_key;
        user = a.user;
        owned = a.owned;
        public_key = a.signed.public_key;
        key_read = (parse_public_key_iff crates a.stored_key a.signed.public_key).0 a.signed.stored;
        signature = a.signed.signature;
        signature_read =
            (decode_signature_iff crates h.signature a.signed.signature).0 a.signed.decoded;
        host = a.signed.host;
        sent_to = (signed_host_iff request a.signed.host).0 a.signed.signed_for;
        path = path;
        asked_for = addressed;
        verifies =
            subst (λ t. crates.verify a.signed.public_key (as_bytes t) a.signed.signature ≡ true)
              (canonical_of-signed_text crates request h path a.signed.host addressed)
              a.signed.verifies;
        unseen = (Unseen-retained now h.nonce st.seen_nonces).0 a.fresh;
        passed_on = a.passed_on;
      }

  IsCredible-IsAuthentic :
      IsCredible crates now request checked st → IsAuthentic crates now request checked st
  IsCredible-IsAuthentic c =
      let h = c.headers in
      record {
        headers = h;
        stored_key = c.stored_key;
        user = c.user;
        read = HasHeaders-read_headers crates request h c.complete;
        timely = (in_window_iff now h.timestamp).1 (c.not_early, c.not_late);
        owned = c.owned;
        signed = record {
          public_key = c.public_key;
          signature = c.signature;
          host = c.host;
          stored = (parse_public_key_iff crates c.stored_key c.public_key).1 c.key_read;
          decoded = (decode_signature_iff crates h.signature c.signature).1 c.signature_read;
          signed_for = (signed_host_iff request c.host).1 c.sent_to;
          verifies =
              subst⁻¹ (λ t. crates.verify c.public_key (as_bytes t) c.signature ≡ true)
                (canonical_of-signed_text crates request h c.path c.host c.asked_for) c.verifies;
        };
        fresh = (Unseen-retained now h.nonce st.seen_nonces).1 c.unseen;
        passed_on = c.passed_on;
      }

  -- A request passes the check exactly if it has all the headers, with version v1; its timestamp is
  -- within 300 seconds of the clock; the key that it names is a user's, of 32 bytes, and verifies its
  -- signature of 64 bytes over the version and, line by line, its key, timestamp, nonce, method, path,
  -- host and content hash; and the map has no such nonce of the last 300 seconds. It is passed on with
  -- the lowercase content hash and the user.
  pub checked_request-IsCredible_iff :
      ((checked_request crates now request st).0 ≡ ok checked)
      ↔ IsCredible crates now request checked st
  checked_request-IsCredible_iff =
      let authentic = checked_request-eq-ok_iff crates now request st checked in
      (
        λ passes. IsAuthentic-IsCredible (authentic.0 passes),
        λ c. authentic.1 (IsCredible-IsAuthentic c),
      )
