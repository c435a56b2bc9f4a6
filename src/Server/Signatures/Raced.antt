-- ===== src/Server/Signatures/Raced.antt =====
-- What a check may do to a check that waits for the lookup of its key.
use railyard.Base.{
  ℕ, ◌+◌, ◌≡◌, ◌≢◌, refl, ap, ◌∙◌, Text, text_eq, text_eq_iff, Bool-cases, inl, inr, insert, true,
  false, none, ok, is_some, is_some-eq-false, get, get-insert, get-filter-insert, get-filter_absent,
  leb, pure, lift, ◌>>=◌, ensure, arith,
}
use railyard.AuthProtocol.{Crates}
use railyard.Server.Db.{Db}
use railyard.Server.Db.Users.{AuthUser}
use railyard.Server.Requests.{HttpRequest, ApiState}
use railyard.Server.Signatures.Headers.{SignatureHeaders, opened, in_window, abs_diff}
use railyard.Server.Signatures.Checks.{checked_request, closing, record_nonce, retained}
use railyard.Server.Signatures.Authentic.{IsAuthentic}
use railyard.Server.Signatures.Accepted.{IsSigned-check_signature, seen_nonces-checked_request}
use railyard.Server.Signatures.Replay.{closing-eq-ok}

module _ (crates : Crates) (t : ℕ) (request passed : HttpRequest) (st : ApiState)
    (a : IsAuthentic crates t request passed st) where
  -- what a check at `now` with another nonce, after the window, leaves of the nonce
  nonce_dropped :
      (n : Text)
      → n ≢ a.headers.nonce
      → get a.headers.nonce (
          retained (t + 300) (
            insert n
              (t + 301)
              (retained (t + 301) (checked_request crates t request st).1.seen_nonces)))
        ≡ none
  unfolding retained
  nonce_dropped n apart =
      let differs : text_eq n a.headers.nonce ≡ false =
        elim (Bool-cases (text_eq n a.headers.nonce)) [
          | inl e ↦ absurd (apart ((text_eq_iff n a.headers.nonce).0 e))
          | inr f ↦ f
        ] in
      get-filter_absent (λ s. leb (abs_diff (t + 300) s) 300) a.headers.nonce _
        (get-insert n a.headers.nonce (t + 301) _
          ∙ rw differs (
              rw (seen_nonces-checked_request crates t request st a) (
                get-filter-insert (λ s. leb (abs_diff (t + 301) s) 300) a.headers.nonce t _
                  (is_some-eq-false _ a.fresh) (ground arith))))

  -- A request whose timestamp is the second in which it passes can pass twice: its second check
  -- reads the clock 300 seconds later, when the window still holds, and before that check takes the
  -- lock another check, of one second later and with another nonce, passes and drops the nonce; if the
  -- key has its owner still.
  pub replay_raced :
      (other passed' : HttpRequest) (h : SignatureHeaders) (owner : Text × AuthUser) (db : Db)
      → a.headers.timestamp ≡ t
      → h.nonce ≢ a.headers.nonce
      → (closing crates
          (t + 301)
          other
          h
          owner
          (record (checked_request crates t request st).1 { db = db })).0
        ≡ ok passed'
      → (opened crates (t + 300) request ≡ ok a.headers)
        × ((closing crates
              (t + 300)
              request
              a.headers
              (a.stored_key, a.user)
              (closing crates
                (t + 301)
                other
                h
                owner
                (record (checked_request crates t request st).1 { db = db })).1).0
            ≡ ok passed)
  unfolding opened in_window closing ◌>>=◌ lift pure ensure record_nonce
  replay_raced other passed' h owner db same apart passes =
      let (_, map) = closing-eq-ok crates (t + 301) other passed' h owner _ passes in
      let timely : leb (abs_diff (t + 300) a.headers.timestamp) 300 ≡ true = ground arith in
      let fresh =
        ap is_some (
          ap (λ m. get a.headers.nonce (retained (t + 300) m)) map ∙ nonce_dropped h.nonce apart) in
      (
        rw a.read (rw timely refl),
        rw (IsSigned-check_signature crates request a.headers a.stored_key a.signed)
            (rw fresh (rw a.passed_on refl)),
      )
