-- ===== src/Server/Db/Redeeming.antt =====
-- Invites are single-use: what `redeem_invite` requires, what it does, and that it does so once.
use mathlib.Core.Option
use railyard.Base.{
  ℕ, ◌≡◌, ◌≢◌, refl, sym, ap, ◌∙◌, ◌==◌, Bool, true, false, Text, text_eq, text_eq_iff, Option,
  none, some, List, [], ◌∷◌, length, find, filter, update, any, has_key, Distinct, ok, Bool-cases,
  inl, inr, >>=-eq-ok, pure, raise, ◌>>=◌, arith,
}
use railyard.Server.Db.Schema.{Tables, InviteRow}
use railyard.Server.Db.Connection.{Db}
use railyard.Server.Db.Keeping.{execute-eq-ok, execute_all-eq-ok, query-eq-ok, tables-query}
use railyard.Server.Db.Invites.{
  redeem_invite, redeemable, consume, mark_redeemed, invite_user, register_key, set_public_key,
}
use railyard.Server.Db.Keyed.{IsKeyed}

abbrev pub has_hash : Text → InviteRow → Bool
has_hash hash i = text_eq i.token_hash hash

pub hash_absent :
    (hash : Text) (r : InviteRow) (rows : List InviteRow) (now : ℕ)
    → has_key (λ (i : InviteRow). i.token_hash) r.token_hash rows ≡ false
    → text_eq r.token_hash hash ≡ true
    → filter (redeemable hash now) rows ≡ []
unfolding filter any redeemable
hash_absent hash r [] now h e = refl
hash_absent hash r (i ∷ rows) now h e = ground (
  arith,
  hash_absent hash r rows now,
  text_eq_iff r.token_hash hash,
  text_eq_iff i.token_hash r.token_hash,
  text_eq_iff i.token_hash hash,
)

-- Token hashes being unique, an UPDATE that consumes an invite has met the one with the hash.
pub consumed_row :
    (hash : Text) (now : ℕ) (rows : List InviteRow)
    → Distinct (λ (i : InviteRow). i.token_hash) rows
    → filter (redeemable hash now) rows ≢ []
    → (i : InviteRow) × (find (has_hash hash) rows ≡ some i) × (redeemable hash now i ≡ true)
unfolding filter find
consumed_row hash now [] d ne = absurd (ne refl)
consumed_row hash now (r ∷ rows) (d, ds) ne = elim (Bool-cases (text_eq r.token_hash hash)) [
  | inl e ↦ elim (Bool-cases (redeemable hash now r)) [
    | inl yes' ↦ (r, rw e refl, yes')
    | inr no' ↦ absurd (ne (rw no' (hash_absent hash r rows now d e)))
  ]
  | inr e ↦
      let missed : redeemable hash now r ≡ false = unfold redeemable in rw e refl in
      let (i, found, at) = consumed_row hash now rows ds (λ h. ne (rw missed h)) in
      (i, rw e found, at)
]

-- marking an invite leaves its hash and its user
pub find-marked :
    (hash : Text) (test : InviteRow → Bool) (now : ℕ) (rows : List InviteRow) (i : InviteRow)
    → find (has_hash hash) rows ≡ some i
    → Option.map
        (λ (r : InviteRow). r.user_id)
        (find (has_hash hash) (update test (mark_redeemed now) rows))
      ≡ some i.user_id
unfolding find update
find-marked hash test now [] i h = ground arith
find-marked hash test now (r ∷ rows) i h = ground (arith, find-marked hash test now rows i)

register_key-eq-ok :
    (key : Text) (found : Option Text) (db : Db) (id : Text)
    → (register_key key found db).0 ≡ ok (some id)
    → (found ≡ some id) × ((register_key key found db).1.tables ≡ set_public_key key id db.tables)
unfolding register_key raise pure
register_key-eq-ok key none db id e = cc
register_key-eq-ok key (some user_id) db id e =
    let (u, done, e₁, s₁) = >>=-eq-ok _ _ db e in
    let same : user_id ≡ id = cc in
    (
      cc,
      rw (← same)
          (ap (λ r. r.1.tables) s₁ ∙ execute_all-eq-ok (set_public_key key user_id) db done),
    )

invite_user-eq-ok :
    (hash : Text) (db : Db) (found : Option Text)
    → (invite_user hash db).0 ≡ ok found
    → (found ≡ Option.map (λ (i : InviteRow). i.user_id) (find (has_hash hash) db.tables.invites))
      × ((invite_user hash db).1.tables ≡ db.tables)
unfolding invite_user
invite_user-eq-ok hash db found e = (query-eq-ok _ db found e, tables-query _ db)

-- what follows the UPDATE that has changed a row
module _ (hash key : Text) (db : Db) (id : Text) where
  after_consumed :
      ((invite_user hash >>= register_key key) db).0 ≡ ok (some id)
      → (Option.map (λ (i : InviteRow). i.user_id) (find (has_hash hash) db.tables.invites)
          ≡ some id)
        × (((invite_user hash >>= register_key key) db).1.tables ≡ set_public_key key id db.tables)
  after_consumed e =
      let (found, looked, e₁, s₁) = >>=-eq-ok (invite_user hash) (register_key key) db e in
      let (is_found, unchanged) = invite_user-eq-ok hash db found looked in
      let (is_id, set) = register_key-eq-ok key found (invite_user hash db).1 id e₁ in
      (sym is_found ∙ is_id, ap (λ r. r.1.tables) s₁ ∙ set ∙ ap (set_public_key key id) unchanged)

pub consumed_ne_nil :
    (hash : Text) (now : ℕ) (t : Tables) (n : ℕ)
    → (consume hash now t).0 ≡ n
    → (n == 0) ≡ false
    → filter (redeemable hash now) t.invites ≢ []
unfolding consume
consumed_ne_nil hash now t n e ne h =
    let none_left : (consume hash now t).0 ≡ 0 = ap (λ (l : List InviteRow). length l) h in
    ground arith

abbrev user_of : Text → Tables → Option Text
user_of hash t = Option.map (λ (i : InviteRow). i.user_id) (find (has_hash hash) t.invites)

-- the user that is looked up after the UPDATE is that of the invite which was there before it
redeemed_user :
    (hash : Text) (now : ℕ) (id : Text) (i : InviteRow) (t : Tables)
    → find (has_hash hash) t.invites ≡ some i
    → user_of hash (consume hash now t).1 ≡ some id
    → i.user_id ≡ id
unfolding consume
redeemed_user hash now id i t found e =
    cc (find-marked hash (redeemable hash now) now t.invites i found)

-- In a database with unique keys, a redemption that returns a user has met an invite of that user
-- with the token's hash, not
-- redeemed and not expired; it has marked that invite and given the user the key, and has changed
-- nothing else.
pub redeem_invite-eq-some :
    (hash key : Text) (now : ℕ) (db : Db) (id : Text)
    → IsKeyed db.tables
    → (redeem_invite hash key now db).0 ≡ ok (some id)
    → (i : InviteRow) × (find (has_hash hash) db.tables.invites ≡ some i)
      × (redeemable hash now i ≡ true)
      × (i.user_id ≡ id)
      × ((redeem_invite hash key now db).1.tables
          ≡ set_public_key key id (consume hash now db.tables).1)
unfolding redeem_invite pure
redeem_invite-eq-some hash key now db id keyed e =
    let (n, did, e₁, s₁) = >>=-eq-ok _ _ db e in
    let (t, done, same) = execute-eq-ok (λ t. ok (consume hash now t)) db n did in
    elim (Bool-cases (n == 0)) [
      | inl zero' ↦ absurd (cc (rw zero' at e₁))
      | inr some' ↦
          let (is_id, set) = after_consumed hash key _ id (rw some' at e₁) in
          let count : (consume hash now db.tables).0 ≡ n = cc in
          let marked : t ≡ (consume hash now db.tables).1 = cc in
          let (i, found, at) =
            consumed_row hash now db.tables.invites keyed.hashes
              (consumed_ne_nil hash now db.tables n count some') in
          (
            i,
            found,
            at,
            redeemed_user hash now id i db.tables found
                (ap (λ (tb : Tables). user_of hash tb) (sym (same ∙ marked)) ∙ is_id),
            ap (λ r. r.1.tables) s₁ ∙ rw some' (set ∙ ap (set_public_key key id) (same ∙ marked)),
          )
    ]
