-- ===== src/Server/Signatures/Authentic.antt =====
-- What a request that `checked_request` lets through has shown.
use railyard.Base.{
  ℕ, ◌≡◌, ap, true, false, Text, as_bytes, Option, some, List, Result, ok, err, pure, lift,
  >>=-eq-ok, ok_or-eq-ok, ensure-eq-ok, contains_key, arith,
}
use railyard.Base.Results
use railyard.AuthProtocol.{Crates}
use railyard.Server.Db.Users.{AuthUser, key_owner}
use railyard.Server.Requests.{HttpRequest, ApiState, on_db}
use railyard.Server.Signatures.Headers.{
  SignatureHeaders, read_headers, opened, in_window, check_signature, parse_public_key,
  decode_signature, signed_host, canonical_of,
}
use railyard.Server.Signatures.Checks.{
  checked_request, closing, identify, record_nonce, retained, verified, found_key,
}

-- The signature of the request verifies under the stored key, for the canonical request.
pub record IsSigned (crates : Crates) (request : HttpRequest) (h : SignatureHeaders)
    (stored_key : Text) : Type 0 where
  pub public_key : List ℕ
  pub signature : List ℕ
  pub host : Text
  pub stored : parse_public_key crates stored_key ≡ some public_key
  pub decoded : decode_signature crates h.signature ≡ ok signature
  pub signed_for : signed_host request ≡ ok host
  pub verifies :
      crates.verify public_key (as_bytes (canonical_of crates request h host)) signature ≡ true

pub check_signature-IsSigned :
    (crates : Crates) (request : HttpRequest) (h : SignatureHeaders) (stored_key : Text)
    {u : Unit {0}}
    → check_signature crates request h stored_key ≡ ok u
    → IsSigned crates request h stored_key
unfolding check_signature
check_signature-IsSigned crates request h stored_key e =
    let (public_key, stored, e₁) = Results.>>=-eq-ok _ _ e in
    let (signature, decoded, e₂) = Results.>>=-eq-ok _ _ e₁ in
    let (host, signed_for, e₃) = Results.>>=-eq-ok _ _ e₂ in
    record {
      public_key = public_key;
      signature = signature;
      host = host;
      stored = ok_or-eq-ok _ _ _ stored;
      decoded = decoded;
      signed_for = signed_for;
      verifies = ensure-eq-ok _ _ e₃;
    }

-- What the check of a request has established, in the state before it.
pub record IsAuthentic (crates : Crates) (now : ℕ) (request checked : HttpRequest) (st : ApiState)
    : Type 0 where
  pub headers : SignatureHeaders
  pub stored_key : Text
  pub user : AuthUser
  pub read : read_headers crates request ≡ ok headers
  pub timely : in_window now headers.timestamp ≡ true
  pub owned : (key_owner headers.key_id st.db).0 ≡ ok (some (stored_key, user))
  pub signed : IsSigned crates request headers stored_key
  pub fresh : contains_key headers.nonce (retained now st.seen_nonces) ≡ false
  pub passed_on : checked ≡ verified request headers user

found_key-eq-ok :
    (r : Result (Option (Text × AuthUser))) {owner : Text × AuthUser}
    → found_key r ≡ ok owner
    → r ≡ ok (some owner)
found_key-eq-ok (ok o) e = ap ok (ok_or-eq-ok o _ _ e)
found_key-eq-ok (err _) e = cc

ok-injective : {A : Type 0} {a b : A} → ok a ≡ ok b → b ≡ a
ok-injective e = cc

pub opened-eq-ok :
    (crates : Crates) (now : ℕ) (request : HttpRequest) (h : SignatureHeaders)
    → opened crates now request ≡ ok h
    → (read_headers crates request ≡ ok h) × (in_window now h.timestamp ≡ true)
unfolding opened
opened-eq-ok crates now request h e =
    let (h', read, e₁) = Results.>>=-eq-ok _ _ e in
    let (_, timely, e₂) = Results.>>=-eq-ok _ _ e₁ in
    let same : h' ≡ h = cc in (rw (← same) read, rw (← same) (ensure-eq-ok _ _ timely))

module _ (crates : Crates) (now : ℕ) (request : HttpRequest) (st : ApiState) where
  identify-eq-ok :
      (key_id : Text) (owner : Text × AuthUser)
      → (identify key_id st).0 ≡ ok owner
      → (key_owner key_id st.db).0 ≡ ok (some owner)
  unfolding identify
  identify-eq-ok key_id owner e = found_key-eq-ok _ e

  record_nonce-eq-ok :
      (nonce : Text) (st' : ApiState) {u : Unit {0}}
      → (record_nonce now nonce st').0 ≡ ok u
      → contains_key nonce (retained now st'.seen_nonces) ≡ false
  unfolding record_nonce
  record_nonce-eq-ok nonce st' e = let h = ensure-eq-ok _ _ e in ground arith

  -- A request passes only with all its headers, inside the window, with a user's key that verifies
  -- its signature and with a nonce that the map does not hold.
  pub checked_request-IsAuthentic :
      {checked : HttpRequest}
      → (checked_request crates now request st).0 ≡ ok checked
      → IsAuthentic crates now request checked st
  unfolding checked_request closing lift pure identify on_db
  checked_request-IsAuthentic {checked} e =
      let (h, began, e₂, _) = >>=-eq-ok _ _ st e in
      let (read, timely) = opened-eq-ok crates now request h began in
      let (owner, owned, e₃, _) = >>=-eq-ok _ _ st e₂ in
      let (_, signed, e₄, _) = >>=-eq-ok _ _ _ e₃ in
      let (_, recorded, e₅, _) = >>=-eq-ok _ _ _ e₄ in
      record {
        headers = h;
        stored_key = owner.0;
        user = owner.1;
        read = read;
        timely = timely;
        owned = identify-eq-ok h.key_id owner owned;
        signed = check_signature-IsSigned crates request h owner.0 signed;
        fresh = record_nonce-eq-ok h.nonce (identify h.key_id st).1 recorded;
        passed_on = ok-injective e₅;
      }
