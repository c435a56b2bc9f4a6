-- ===== src/Server/Routes/Authenticated.antt =====
-- From the public surface to a handler: what a signed call has passed before its handler runs.
use mathlib.Core.Path.{subst⁻¹}
use railyard.Base.{
  ℕ, ◌≤◌, ◌≡◌, ◌⊎◌, refl, ap, ◌∙◌, true, ltb, Bool-cases, Text, length, to_ascii_lowercase, some,
  ok, Result-cases, inl, inr, arith,
}
use railyard.AuthProtocol.{Crates}
use railyard.Server.Db.Users.{AuthUser}
use railyard.Server.Requests.{HttpRequest, ApiState, Response, refuse_if}
use railyard.Server.Signatures.{
  checked_request, verify_signature, proceed, verify_body_hash, check_body, body_matches, verified,
  max_body_bytes,
}
use railyard.Server.Signatures.Authentic.{IsAuthentic, checked_request-IsAuthentic}
use railyard.Server.Signatures.Accepted.{tables-checked_request}
use railyard.Server.Routes.Router.{
  Call, handle, is_buffered, for_user, with_caller, protected_routes, SignedCall, signed_routes,
}

-- Of a body that the limit and the hash let through
abbrev pub IsChecked : Crates → Text → HttpRequest → Type 0
IsChecked crates hash request =
    (body_matches crates hash request ≡ true) × (length request.body ≤ max_body_bytes)

abbrev IsRefusal : ℕ → Type 0
IsRefusal status = (status ≡ 400) ⊎ (status ≡ 401)

module _ (crates : Crates) (call : Call) (request : HttpRequest) (hash : Text)
    (user : AuthUser) where
  abbrev known : HttpRequest
  known = record request { signed_hash = some hash; user = some user }

  -- a verified request is refused for its body, or its handler runs
  protected_routes-known :
      (st : ApiState)
      → (IsRefusal (protected_routes crates call known st).0.status
          × ((protected_routes crates call known st).1 ≡ st))
        ⊎ ((protected_routes crates call known st ≡ handle crates call user (some hash) st)
            × (is_buffered call ≡ true → IsChecked crates hash request))
  unfolding protected_routes with_caller for_user verify_body_hash check_body refuse_if body_matches
  protected_routes-known st = elim (Bool-cases (is_buffered call)) [
    | inr streamed ↦ inr (rw streamed refl, λ buffered. absurd (cc (streamed, buffered)))
    | inl buffered ↦ elim (Bool-cases (ltb max_body_bytes (length request.body))) [
      | inl long ↦ inl (rw buffered (rw long (inl refl)), rw buffered (rw long refl))
      | inr fits ↦ elim (Bool-cases (body_matches crates hash request)) [
        | inr other ↦
            inl (rw buffered (rw fits (rw other (inr refl))), rw buffered (rw fits (rw other refl)))
        | inl same ↦ inr (rw buffered (rw fits (rw same refl)), λ _. (same, ground arith))
      ]
    ]
  ]

module _ (crates : Crates) (now : ℕ) (call : Call) (request : HttpRequest) (st : ApiState) where
  abbrev answer : Response × ApiState
  answer = signed_routes crates now (SignedCall.protected call request) st

  abbrev after_check : ApiState
  after_check = (checked_request crates now request st).1

  -- The call has been refused with 400 or 401, and the tables are as before.
  pub record IsRefused : Type 0 where
    pub status : (answer.0.status ≡ 400) ⊎ (answer.0.status ≡ 401)
    pub tables : answer.1.db.tables ≡ st.db.tables

  -- The call's handler has run, for the user whose key signed the request. Where the body is
  -- buffered it is within the limit, and its hash is the signed one.
  pub record IsHandled : Type 0 where
    pub checked : HttpRequest
    pub authentic : IsAuthentic crates now request checked st
    pub ran :
        answer
        ≡ handle crates call authentic.user
            (some (to_ascii_lowercase authentic.headers.content_sha256))
            after_check
    pub whole :
        is_buffered call ≡ true
        → IsChecked crates (to_ascii_lowercase authentic.headers.content_sha256) request

  passed :
      (checked : HttpRequest)
      → (checked_request crates now request st).0 ≡ ok checked
      → IsRefused ⊎ IsHandled
  unfolding signed_routes verify_signature proceed
  passed checked e =
      let a = checked_request-IsAuthentic crates now request st e in
      let through : answer
          ≡ protected_routes crates call (verified request a.headers a.user) after_check =
        rw (e, proceed) (ap (λ r. protected_routes crates call r after_check) a.passed_on) in
      elim (protected_routes-known crates call request (to_ascii_lowercase a.headers.content_sha256)
        a.user after_check) [
          | inl (refused, same) ↦ inl (record {
            status = subst⁻¹ (λ (r : Response × ApiState). IsRefusal r.0.status) through refused;
            tables =
                ap (λ (r : Response × ApiState). r.1.db.tables) through
                ∙ ap (λ (s : ApiState). s.db.tables) same
                ∙ tables-checked_request crates now request st;
          })
          | inr (ran, whole) ↦
              inr (record { checked = checked; authentic = a; ran = through ∙ ran; whole = whole })
        ]

  -- A signed call is refused with 400 or 401 and changes no table, or its request is authentic and
  -- its handler runs, for the user whose key signed it and in the state that the check left; and
  -- outside the routes of releases its body is then within the limit and of the signed hash.
  pub signed_routes-protected : IsRefused ⊎ IsHandled
  unfolding signed_routes verify_signature proceed
  signed_routes-protected = elim (Result-cases (checked_request crates now request st).0) [
    | inl (checked, e) ↦ passed checked e
    | inr (why, e) ↦ inl (record {
      status = inr (rw (e, proceed) refl);
      tables = rw (e, proceed) (tables-checked_request crates now request st);
    })
  ]
