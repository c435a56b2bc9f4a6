-- ===== src/Server/Signatures/Replay.antt =====
-- The replay map of `ApiState`: which repeats of a request are refused, and which are not.
use railyard.Base.{
  ℕ, ◌+◌, ◌*◌, Bool, not, >>=-eq-ok, ensure-eq-ok, pure, lift, ◌≤◌, ◌<◌, ◌≡◌, ◌≢◌, ◌⊎◌, inl, inr,
  refl, ap, ◌∙◌, true, false, Text, some, ok, Keeps, keeps_rules, get, insert, contains_key,
  is_some, is_some-eq-false, get-insert, get-filter_kept, get-filter-insert, text_eq, text_eq_refl,
  Bool-cases, leb, arith,
}
use railyard.AuthProtocol.{Crates}
use railyard.Server.Db.{Db}
use railyard.Server.Db.Users.{AuthUser, key_owner}
use railyard.Server.Requests.{HttpRequest, ApiState}
use railyard.Server.Signatures.Headers.{SignatureHeaders, opened, in_window, abs_diff}
use railyard.Server.Signatures.Checks.{checked_request, closing, record_nonce, retained}
use railyard.Server.Signatures.Authentic.{IsAuthentic, opened-eq-ok}
use railyard.Server.Signatures.Accepted.{checked_request-eq-ok_iff, seen_nonces-checked_request}

-- At the time `c` the map still holds the nonce, noted with a time that is at most `d` before `t`, or
-- the window after `t` is over for all but `d` seconds.
abbrev pub Guarded : ℕ → Text → ℕ → ℕ → ApiState → Type 0
Guarded d nonce t c st =
    ((s : ℕ) × (get nonce st.seen_nonces ≡ some s) × (t ≤ s + d) × (s ≤ c)) ⊎ (t + 300 < c + d)

-- a check with the time `now` takes the lock at `c`
module _ (d : ℕ) (nonce : Text) (t now c : ℕ) where
  insert-Guarded :
      (n : Text) (st : ApiState)
      → (d ≤ 300) × (t ≤ c) × (now ≤ c) × (c ≤ now + d)
      → Guarded d nonce t c st
      → Guarded d nonce t c (record st { seen_nonces = insert n now (retained now st.seen_nonces) })
  unfolding retained
  insert-Guarded n st le (inr over) = inr over
  insert-Guarded n st (short, later, began, soon) (inl (s, held, low, high)) =
      elim (Bool-cases (leb (abs_diff now s) 300)) [
        | inl kept ↦ elim (Bool-cases (text_eq n nonce)) [
          | inl same ↦ inl (now, get-insert n nonce now _ ∙ rw same refl, omega arith, began)
          | inr other ↦ inl (
            s,
            get-insert n nonce now _
                ∙ rw other (
                    get-filter_kept (λ seen. leb (abs_diff now seen) 300) nonce s st.seen_nonces
                      held kept),
            low,
            high,
          )
        ]
        | inr dropped ↦ inr (ground arith)
      ]

  record_nonce-Guarded :
      (n : Text)
      → (d ≤ 300) × (t ≤ c) × (now ≤ c) × (c ≤ now + d)
      → Keeps (Guarded d nonce t c) (record_nonce now n)
  unfolding record_nonce
  record_nonce-Guarded n le = record { from = λ st h. insert-Guarded n st le h }

  closing-Guarded :
      (crates : Crates) (request : HttpRequest) (h : SignatureHeaders) (owner : Text × AuthUser)
      → (d ≤ 300) × (t ≤ c) × (now ≤ c) × (c ≤ now + d)
      → Keeps (Guarded d nonce t c) (closing crates now request h owner)
  unfolding closing
  closing-Guarded crates request h owner le = search (keeps_rules, record_nonce-Guarded) depth 12

-- What can happen to the shared state from the time `t` on: the clock advances; a check that has read
-- the clock at most `d` seconds ago, and has met any headers and any owner of a key, takes the lock;
-- handlers and lookups of keys change the database. Checks need not take the lock in the order in
-- which they read the clock, and one may have read it before `t`.
pub data Runs (crates : Crates) (d t : ℕ) (st : ApiState) : ℕ → ApiState → Type 0 where
  stay : Runs crates d t st t st
  wait :
      {c : ℕ} {st' : ApiState} (c' : ℕ)
      → Runs crates d t st c st'
      → c ≤ c'
      → Runs crates d t st c' st'
  lock :
      {c : ℕ} {st' : ApiState} (now : ℕ) (request : HttpRequest) (h : SignatureHeaders)
      (owner : Text × AuthUser)
      → Runs crates d t st c st'
      → (now ≤ c) × (c ≤ now + d)
      → Runs crates d t st c (closing crates now request h owner st').1
  handle :
      {c : ℕ} {st' : ApiState} (db : Db)
      → Runs crates d t st c st'
      → Runs crates d t st c (record st' { db = db })

wait-Guarded :
    (d : ℕ) (nonce : Text) (t c c' : ℕ) (st' : ApiState)
    → c ≤ c'
    → Guarded d nonce t c st'
    → Guarded d nonce t c' st'
wait-Guarded d nonce t c c' st' le (inl (s, held, low, high)) = inl (s, held, low, omega arith)
wait-Guarded d nonce t c c' st' le (inr over) = inr (omega arith)

module _ {crates : Crates} {d start : ℕ} {st : ApiState} where
  Runs-le : {c : ℕ} {st' : ApiState} → Runs crates d start st c st' → start ≤ c
  Runs-le stay = omega arith
  Runs-le (wait c' r h) = omega (arith, Runs-le r)
  Runs-le (lock now request h owner r le) = Runs-le r
  Runs-le (handle db r) = Runs-le r

  Runs-Guarded :
      (nonce : Text) (t : ℕ) {c : ℕ} {st' : ApiState}
      → (d ≤ 300) × (t ≤ start)
      → Guarded d nonce t start st
      → Runs crates d start st c st'
      → Guarded d nonce t c st'
  Runs-Guarded nonce t le g stay = g
  Runs-Guarded nonce t le g (wait {c} {st'} c' r h) =
      wait-Guarded d nonce t c c' st' h (Runs-Guarded nonce t le g r)
  Runs-Guarded nonce t (short, first) g (lock {c} {st'} now request h owner r (began, soon)) =
      (closing-Guarded d nonce t now c crates request h owner
          (short, omega (arith, Runs-le r), began, soon)).from
        st' (Runs-Guarded nonce t (short, first) g r)
  Runs-Guarded nonce t le g (handle db r) = Runs-Guarded nonce t le g r

-- While the nonce is guarded and the timestamp is old, no check with both finds it timely at `u` and
-- then fresh.
Guarded-stale :
    (d : ℕ) (nonce : Text) (t u c stamp : ℕ) (st : ApiState)
    → Guarded d nonce t c st
    → (d ≤ 300) × (stamp + 2 * d ≤ t) × (u ≤ c) × (c ≤ u + d)
    → in_window u stamp ≡ true
    → contains_key nonce (retained u st.seen_nonces) ≡ false
    → ⊥
unfolding in_window retained
Guarded-stale d nonce t u c stamp st (inr over) le timely fresh = ground arith
Guarded-stale d nonce t u c stamp st (inl (s, held, low, high)) le timely fresh =
    elim (Bool-cases (leb (abs_diff u s) 300)) [
      | inl kept ↦ cc (
        get-filter_kept (λ seen. leb (abs_diff u seen) 300) nonce s st.seen_nonces held kept,
        fresh,
      )
      | inr dropped ↦ ground arith
    ]

not-held : (b : Bool) → not b ≡ true → b ≡ false
not-held false h = refl
not-held true h = cc

-- Of a check that passes from the lookup on: its nonce was not held, and is noted.
pub closing-eq-ok :
    (crates : Crates) (now : ℕ) (request passed : HttpRequest) (h : SignatureHeaders)
    (owner : Text × AuthUser) (st : ApiState)
    → (closing crates now request h owner st).0 ≡ ok passed
    → (contains_key h.nonce (retained now st.seen_nonces) ≡ false)
      × ((closing crates now request h owner st).1.seen_nonces
          ≡ insert h.nonce now (retained now st.seen_nonces))
unfolding closing record_nonce pure lift
closing-eq-ok crates now request passed h owner st e =
    let (_, signed, e₁, s₁) = >>=-eq-ok _ _ st e in
    let (_, recorded, e₂, s₂) = >>=-eq-ok _ _ st e₁ in
    (not-held _ (ensure-eq-ok _ _ recorded), ap (λ r. r.1.seen_nonces) (s₁ ∙ s₂))

-- Let every check take the lock at most `d` seconds after it has read the clock, with `d` at most
-- 300. A request that has read `t`, with a timestamp at least `2 * d` before it, and has passed is
-- refused for ever after: whatever checks take the lock in between, in any order of their times,
-- whatever handlers and lookups do, and however much time passes, no check of a request with the
-- same headers passes that takes the lock after it, when ever that check began.
pub replay_refused :
    (crates : Crates) (d t c u c' : ℕ) (request again passed passed' : HttpRequest)
    (owner owner' : Text × AuthUser) (st st' : ApiState) (h : SignatureHeaders)
    → d ≤ 300
    → h.timestamp + 2 * d ≤ t
    → opened crates t request ≡ ok h
    → (t ≤ c) × (c ≤ t + d)
    → (closing crates t request h owner st).0 ≡ ok passed
    → Runs crates d c (closing crates t request h owner st).1 c' st'
    → opened crates u again ≡ ok h
    → (u ≤ c') × (c' ≤ u + d)
    → (closing crates u again h owner' st').0 ≢ ok passed'
replay_refused crates d t c u c' request again passed passed' owner owner' st st' h short old began
      (read, locked) first runs again_began (read', locked') second =
    let (_, map) = closing-eq-ok crates t request passed h owner st first in
    let noted : get h.nonce (closing crates t request h owner st).1.seen_nonces ≡ some t =
      ap (get h.nonce) map
      ∙ get-insert h.nonce h.nonce t (retained t st.seen_nonces)
      ∙ rw (text_eq_refl h.nonce) refl in
    let (fresh, _) = closing-eq-ok crates u again passed' h owner' st' second in
    let (_, timely) = opened-eq-ok crates u again h again_began in
    Guarded-stale d h.nonce t u c' h.timestamp st'
      (Runs-Guarded h.nonce t (short, read) (inl (t, noted, omega arith, read)) runs)
      (short, old, read', locked') timely fresh

-- A request whose timestamp is ahead of the server's clock passes once more one second after the
-- window of its first use, if the key still has its owner: its nonce is dropped from the map before
-- its timestamp leaves the window.
pub replay_accepted :
    (crates : Crates) (t : ℕ) (request passed : HttpRequest) (st : ApiState)
    (a : IsAuthentic crates t request passed st) (db : Db)
    → t < a.headers.timestamp
    → (key_owner a.headers.key_id db).0 ≡ ok (some (a.stored_key, a.user))
    → (checked_request crates
        (t + 301)
        request
        (record (checked_request crates t request st).1 { db = db })).0
      ≡ ok passed
unfolding in_window retained
replay_accepted crates t request passed st a db ahead owned =
    (checked_request-eq-ok_iff crates (t + 301) request
        (record (checked_request crates t request st).1 { db = db }) passed).1
      (record {
        headers = a.headers;
        stored_key = a.stored_key;
        user = a.user;
        read = a.read;
        timely = ground (arith, a.timely);
        owned = owned;
        signed = a.signed;
        fresh = rw (seen_nonces-checked_request crates t request st a) (
            ap is_some (
              get-filter-insert (λ s. leb (abs_diff (t + 301) s) 300) a.headers.nonce t _
                (is_some-eq-false _ a.fresh) (ground arith)));
        passed_on = a.passed_on;
      })
