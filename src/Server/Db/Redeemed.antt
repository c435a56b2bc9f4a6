-- ===== src/Server/Db/Redeemed.antt =====
-- What a redemption that returns a user has met and has done, row by row.
use mathlib.Core.Path.{subst}
use railyard.Base.{
  ℕ, ◌+◌, ◌^◌, ◌%◌, ◌<◌, ◌≡◌, refl, ap, ◌∙◌, Bool, true, false, map, In, Text, text_eq, text_eq_iff,
  none, some, List, [], ◌∷◌, find, update, any, has_key, Distinct, ok, Bool-cases, inl, inr,
  if◌then◌else◌, arith,
}
use railyard.Server.Db.Schema.{Tables, UserRow, InviteRow, i64_lt}
use railyard.Server.Db.Connection.{Db}
use railyard.Server.Db.Invites.{redeem_invite, redeemable, consume, mark_redeemed, set_public_key}
use railyard.Server.Db.Keyed.{IsKeyed}
use railyard.Server.Db.Redeeming.{has_hash, redeem_invite-eq-some}

-- where a number of 64 bits stands in the order of `i64`, which the columns have
abbrev pub signed : ℕ → ℕ
signed n = (n + 2 ^ 63) % 2 ^ 64

-- A redemption of the token with the hash, by the key, has returned the user `id`.
pub record IsRedeemed (hash key : Text) (now : ℕ) (id : Text) (before after : Tables) : Type 0 where
  pub invite : InviteRow
  pub stored : In invite before.invites
  pub of_token : invite.token_hash ≡ hash
  pub of_user : invite.user_id ≡ id
  pub unredeemed : invite.redeemed_at ≡ none
  pub unexpired : signed now < signed invite.expires_at
  pub invites :
      after.invites
      ≡ map
          (λ (i : InviteRow).
            if text_eq i.token_hash hash then record i { redeemed_at = some now } else i)
          before.invites
  pub users :
      after.users
      ≡ map
          (λ (u : UserRow). if text_eq u.id id then record u { public_key = some key } else u)
          before.users
  pub projects : after.projects ≡ before.projects
  pub releases : after.releases ≡ before.releases

update-map :
    {A : Type 0} (test : A → Bool) (change : A → A) (rows : List A)
    → update test change rows ≡ map (λ r. if test r then change r else r) rows
unfolding update
update-map test change [] = refl
update-map test change (r ∷ rows) = elim (Bool-cases (test r)) [
  | inl t ↦ rw t (ap (λ rest. change r ∷ rest) (update-map test change rows))
  | inr f ↦ rw f (ap (λ rest. r ∷ rest) (update-map test change rows))
]

found-In :
    {A : Type 0} (test : A → Bool) (rows : List A) (a : A)
    → find test rows ≡ some a
    → In a rows × (test a ≡ true)
unfolding find
found-In test [] a e = cc
found-In test (r ∷ rows) a e = elim (Bool-cases (test r)) [
  | inl t ↦
      let first : some r ≡ some a = rw t at e in
      let same : r ≡ a = cc in (inl cc, subst (λ x. test x ≡ true) same t)
  | inr f ↦ let (there, passes) = found-In test rows a (rw f at e) in (inr there, passes)
]

redeemable-parts :
    (hash : Text) (now : ℕ) (i : InviteRow)
    → redeemable hash now i ≡ true
    → (i.redeemed_at ≡ none) × (signed now < signed i.expires_at)
unfolding redeemable i64_lt
redeemable-parts hash now i h = ground arith

-- rows of another hash are passed over
absent-unmarked :
    (hash : Text) (now : ℕ) (rows : List InviteRow)
    → has_key (λ (i : InviteRow). i.token_hash) hash rows ≡ false
    → update (redeemable hash now) (mark_redeemed now) rows
      ≡ update (has_hash hash) (mark_redeemed now) rows
unfolding update redeemable any
absent-unmarked hash now [] h = refl
absent-unmarked hash now (r ∷ rows) h = ground (arith, absent-unmarked hash now rows)

-- the hash alone finds the row that is marked
marked_by_hash :
    (hash : Text) (now : ℕ) (rows : List InviteRow) (i : InviteRow)
    → Distinct (λ (r : InviteRow). r.token_hash) rows
    → find (has_hash hash) rows ≡ some i
    → redeemable hash now i ≡ true
    → update (redeemable hash now) (mark_redeemed now) rows
      ≡ update (has_hash hash) (mark_redeemed now) rows
unfolding update find
marked_by_hash hash now [] i d e at = cc
marked_by_hash hash now (r ∷ rows) i (d, ds) e at = elim (Bool-cases (text_eq r.token_hash hash)) [
  | inl t ↦
      let first : some r ≡ some i = rw t at e in
      let same : i ≡ r = cc in
      let ours : redeemable hash now r ≡ true = subst (λ x. redeemable hash now x ≡ true) same at in
      let absent =
        subst (λ k. has_key (λ (x : InviteRow). x.token_hash) k rows ≡ false)
          ((text_eq_iff r.token_hash hash).0 t) d in
      rw (t, ours) (ap (λ rest. mark_redeemed now r ∷ rest) (absent-unmarked hash now rows absent))
  | inr f ↦
      let missed : redeemable hash now r ≡ false = unfold redeemable in rw f refl in
      rw (f, missed) (ap (λ rest. r ∷ rest) (marked_by_hash hash now rows i ds (rw f at e) at))
]

-- In a database with unique keys, a redemption that returns a user has met a stored invite of that
-- user with the token's hash, not redeemed and not expired. It has marked the invite of that hash
-- with the time, has given the user of that id the key, and has changed nothing else.
pub redeem_invite-IsRedeemed :
    (hash key : Text) (now : ℕ) (db : Db) (id : Text)
    → IsKeyed db.tables
    → (redeem_invite hash key now db).0 ≡ ok (some id)
    → IsRedeemed hash key now id db.tables (redeem_invite hash key now db).1.tables
unfolding consume set_public_key
redeem_invite-IsRedeemed hash key now db id keyed e =
    let (i, found, fits, owner, after) = redeem_invite-eq-some hash key now db id keyed e in
    let (stored, hashed) = found-In (has_hash hash) db.tables.invites i found in
    let (unredeemed, unexpired) = redeemable-parts hash now i fits in
    record {
      invite = i;
      stored = stored;
      of_token = (text_eq_iff i.token_hash hash).0 hashed;
      of_user = owner;
      unredeemed = unredeemed;
      unexpired = unexpired;
      invites =
          ap (λ (t : Tables). t.invites) after
          ∙ marked_by_hash hash now db.tables.invites i keyed.hashes found fits
          ∙ update-map (has_hash hash) (mark_redeemed now) db.tables.invites;
      users = ap (λ (t : Tables). t.users) after ∙ update-map _ _ db.tables.users;
      projects = ap (λ (t : Tables). t.projects) after;
      releases = ap (λ (t : Tables). t.releases) after;
    }
