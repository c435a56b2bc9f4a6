-- ===== src/Server/Signatures/Accepted.antt =====
-- The converse of `checked_request-IsAuthentic`: what meets the conditions passes.
use railyard.Base.{
  ℕ, ◌≡◌, ◌∙◌, ◌↔◌, Text, ok, ensure, pure, lift, ◌>>=◌, ok_or, insert, ◌∙◌, refl, Keeps,
  keeps_rules,
}
use railyard.AuthProtocol.{Crates}
use railyard.Server.Db.{Tables}
use railyard.Server.Db.Keeping.{tables-query}
use railyard.Server.Db.Users.{key_owner}
use railyard.Server.Requests.{HttpRequest, ApiState, on_db}
use railyard.Server.Signatures.Headers.{SignatureHeaders, opened, check_signature}
use railyard.Server.Signatures.Checks.{checked_request, closing, identify, record_nonce, retained}
use railyard.Server.Signatures.Authentic.{IsSigned, IsAuthentic, checked_request-IsAuthentic}

pub IsSigned-check_signature :
    (crates : Crates) (request : HttpRequest) (h : SignatureHeaders) (stored_key : Text)
    → IsSigned crates request h stored_key
    → check_signature crates request h stored_key ≡ ok tt
unfolding check_signature ok_or ensure
IsSigned-check_signature crates request h stored_key s =
    rw s.stored (rw s.decoded (rw s.signed_for (rw s.verifies)))

module _ (crates : Crates) (now : ℕ) (request : HttpRequest) (st : ApiState) where
  IsAuthentic-checked_request :
      (checked : HttpRequest)
      → IsAuthentic crates now request checked st
      → (checked_request crates now request st).0 ≡ ok checked
  unfolding checked_request closing opened ◌>>=◌ lift pure identify on_db ensure ok_or record_nonce
  IsAuthentic-checked_request checked a = rw a.read (
      rw a.timely (
        rw a.owned (
          rw (IsSigned-check_signature crates request a.headers a.stored_key a.signed)
            (rw a.fresh (rw a.passed_on)))))

  -- A request passes the check exactly if it is authentic: it has all the headers of version v1,
  -- its timestamp lies in the window, its key is that of a user who has one, the signature verifies
  -- for the canonical request under that key, and the map does not hold its nonce. It is passed on
  -- with the lowercase content hash and with the user of the key.
  pub checked_request-eq-ok_iff :
      (checked : HttpRequest)
      → ((checked_request crates now request st).0 ≡ ok checked)
        ↔ IsAuthentic crates now request checked st
  checked_request-eq-ok_iff checked =
      (checked_request-IsAuthentic crates now request st, IsAuthentic-checked_request checked)

  -- what a request that passes leaves in the replay map
  pub seen_nonces-checked_request :
      {checked : HttpRequest} (a : IsAuthentic crates now request checked st)
      → (checked_request crates now request st).1.seen_nonces
        ≡ insert a.headers.nonce now (retained now st.seen_nonces)
  unfolding checked_request closing opened ◌>>=◌ lift pure identify on_db ensure ok_or record_nonce
  seen_nonces-checked_request a = rw a.read (
      rw a.timely (
        rw a.owned (
          rw (IsSigned-check_signature crates request a.headers a.stored_key a.signed)
            (rw a.fresh))))

-- The check of a request reads the database and writes nothing, pass or not.
module _ (crates : Crates) (now : ℕ) (request : HttpRequest) where
  identify-keeps_tables :
      (t : Tables) (key : Text) → Keeps (λ (st : ApiState). st.db.tables ≡ t) (identify key)
  unfolding identify on_db key_owner
  identify-keeps_tables t key = record { from = λ st h. tables-query _ st.db ∙ h }

  record_nonce-keeps_tables :
      (t : Tables) (nonce : Text)
      → Keeps (λ (st : ApiState). st.db.tables ≡ t) (record_nonce now nonce)
  unfolding record_nonce
  record_nonce-keeps_tables t nonce = record { from = λ st h. h }

  checked_request-keeps_tables :
      (t : Tables)
      → Keeps (λ (st : ApiState). st.db.tables ≡ t) (checked_request crates now request)
  unfolding checked_request closing
  checked_request-keeps_tables t =
      search (keeps_rules, identify-keeps_tables, record_nonce-keeps_tables) depth 12

  pub tables-checked_request :
      (st : ApiState) → (checked_request crates now request st).1.db.tables ≡ st.db.tables
  tables-checked_request st = (checked_request-keeps_tables st.db.tables).from st refl
