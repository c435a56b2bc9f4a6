-- ===== src/Server/Db/SingleUse.antt =====
-- An invite that has been redeemed is not redeemed again, whatever happens to the database later.
use mathlib.Core.Path.{subst⁻¹}
use railyard.Base.{
  ℕ, ◌≡◌, ◌≢◌, refl, ap, ◌==◌, ◌||◌, not, Bool, true, false, Text, text_eq, text_eq_iff, Option,
  none, some, is_some, List, [], ◌∷◌, length, find, filter, update, any, has_key, Distinct, All,
  All-filter, ok, Keeps, keeps_rules, Bool-cases, inl, inr, >>=-eq-ok, pure, arith,
}
use railyard.Server.Db.Schema.{Tables, InviteRow, insert_invite}
use railyard.Server.Db.Connection.{Db}
use railyard.Server.Db.Keeping.{OnTables, keeping_rules, Keeps-execute, execute-eq-ok}
use railyard.Server.Db.Inserts.{insert_invite-eq-ok}
use railyard.Server.Db.Users.{
  remove_user, remove_found, user_id_by_name, delete_invites, delete_user,
}
use railyard.Server.Db.Invites.{
  redeem_invite, redeemable, consume, mark_redeemed, invite_user, register_key, set_public_key,
  create_invite,
}
use railyard.Server.Db.Keyed.{IsKeyed}
use railyard.Server.Db.Redeeming.{has_hash, hash_absent, redeem_invite-eq-some}

abbrev spent_row : Text → InviteRow → Bool
spent_row hash i = not (has_hash hash i) || is_some i.redeemed_at

-- An invite is spent if every row with its hash is redeemed.
pub record IsSpent (hash : Text) (t : Tables) : Type 0 where
  pub rows : All (λ (i : InviteRow). spent_row hash i ≡ true) t.invites

spent_rows :
    (hash : Text) (now : ℕ) (rows : List InviteRow)
    → All (λ (i : InviteRow). spent_row hash i ≡ true) rows
    → filter (redeemable hash now) rows ≡ []
unfolding filter redeemable
spent_rows hash now [] h = refl
spent_rows hash now (i ∷ rows) (s, h) = ground (arith, spent_rows hash now rows h)

-- no redemption of a spent invite returns a user
pub IsSpent-redeem_invite :
    (hash key : Text) (now : ℕ) (db : Db) (id : Text)
    → IsSpent hash db.tables
    → (redeem_invite hash key now db).0 ≢ ok (some id)
unfolding redeem_invite pure consume
IsSpent-redeem_invite hash key now db id spent e =
    let (n, did, e₁, _) = >>=-eq-ok _ _ db e in
    let (t, done, _) = execute-eq-ok (λ t. ok (consume hash now t)) db n did in
    let none_left =
      ap (λ (l : List InviteRow). length l) (spent_rows hash now db.tables.invites spent.rows) in
    let nothing : (n == 0) ≡ true = ground arith in cc (rw nothing at e₁)

absent_spent :
    (hash : Text) (r : InviteRow) (test : InviteRow → Bool) (now : ℕ) (rows : List InviteRow)
    → has_key (λ (i : InviteRow). i.token_hash) r.token_hash rows ≡ false
    → text_eq r.token_hash hash ≡ true
    → All (λ (i : InviteRow). spent_row hash i ≡ true) (update test (mark_redeemed now) rows)
unfolding update any
absent_spent hash r test now [] h e = tt
absent_spent hash r test now (i ∷ rows) h e =
    let other : text_eq i.token_hash hash ≡ false = ground (
      arith,
      text_eq_iff r.token_hash hash,
      text_eq_iff i.token_hash r.token_hash,
      text_eq_iff i.token_hash hash,
    ) in
    let later = absent_spent hash r test now rows (ground arith) e in
    elim (Bool-cases (test i)) [
      | inl t ↦ rw t (rw other refl, later)
      | inr t ↦ rw t (rw other refl, later)
    ]

pub marked_spent :
    (hash : Text) (now : ℕ) (rows : List InviteRow)
    → Distinct (λ (i : InviteRow). i.token_hash) rows
    → filter (redeemable hash now) rows ≢ []
    → All
        (λ (i : InviteRow). spent_row hash i ≡ true)
        (update (redeemable hash now) (mark_redeemed now) rows)
unfolding filter update
marked_spent hash now [] d ne = tt
marked_spent hash now (r ∷ rows) (d, ds) ne = elim (Bool-cases (text_eq r.token_hash hash)) [
  | inl e ↦ elim (Bool-cases (redeemable hash now r)) [
    | inl met ↦ rw met (rw e refl, absent_spent hash r (redeemable hash now) now rows d e)
    | inr missed ↦ absurd (ne (rw missed (hash_absent hash r rows now d e)))
  ]
  | inr e ↦
      let missed : redeemable hash now r ≡ false = unfold redeemable in rw e refl in
      rw missed (rw e refl, marked_spent hash now rows ds (λ h. ne (rw missed h)))
]

pub found_redeemable :
    (hash : Text) (now : ℕ) (rows : List InviteRow) (i : InviteRow)
    → find (has_hash hash) rows ≡ some i
    → redeemable hash now i ≡ true
    → filter (redeemable hash now) rows ≢ []
unfolding find filter
found_redeemable hash now [] i f e h = cc
found_redeemable hash now (r ∷ rows) i f e h = ground (arith, found_redeemable hash now rows i)

IsSpent-redeemed :
    (hash key : Text) (now : ℕ) (db : Db) (id : Text)
    → IsKeyed db.tables
    → (redeem_invite hash key now db).0 ≡ ok (some id)
    → IsSpent hash (redeem_invite hash key now db).1.tables
unfolding consume set_public_key
IsSpent-redeemed hash key now db id keyed e =
    let (i, found, at, _, after) = redeem_invite-eq-some hash key now db id keyed e in
    subst⁻¹ (IsSpent hash) after (record {
      rows =
          marked_spent hash now db.tables.invites keyed.hashes
            (found_redeemable hash now db.tables.invites i found at);
    })

still_spent :
    (hash : Text) (test : InviteRow → Bool) (now : ℕ) (rows : List InviteRow)
    → All (λ (i : InviteRow). spent_row hash i ≡ true) rows
    → All (λ (i : InviteRow). spent_row hash i ≡ true) (update test (mark_redeemed now) rows)
unfolding update
still_spent hash test now [] h = tt
still_spent hash test now (i ∷ rows) (s, h) = elim (Bool-cases (test i)) [
  | inl t ↦ rw t (ground arith, still_spent hash test now rows h)
  | inr t ↦ rw t (s, still_spent hash test now rows h)
]

module _ (hash : Text) where
  consume-IsSpent :
      (h : Text) (now : ℕ) (t t' : Tables) (n : ℕ)
      → ok (consume h now t) ≡ ok (n, t')
      → IsSpent hash t
      → IsSpent hash t'
  unfolding consume
  consume-IsSpent h now t t' n e s =
      let same : (consume h now t).1 ≡ t' = cc in
      rw (← same) (record { rows = still_spent hash (redeemable h now) now t.invites s.rows })

  set_public_key-IsSpent :
      (key id : Text) (t : Tables) → IsSpent hash t → IsSpent hash (set_public_key key id t)
  unfolding set_public_key
  set_public_key-IsSpent key id t s = record { rows = s.rows }

  register_key-IsSpent :
      (key : Text) (found : Option Text) → Keeps (OnTables (IsSpent hash)) (register_key key found)
  unfolding register_key
  register_key-IsSpent key none = search keeps_rules
  register_key-IsSpent key (some id) =
      search (keeps_rules, keeping_rules, set_public_key-IsSpent) depth 9

  redeem_invite-IsSpent :
      (h key : Text) (now : ℕ) → Keeps (OnTables (IsSpent hash)) (redeem_invite h key now)
  unfolding redeem_invite invite_user
  redeem_invite-IsSpent h key now =
      search (keeps_rules, keeping_rules, consume-IsSpent, register_key-IsSpent) depth 9

  insert_invite-IsSpent :
      (r : InviteRow)
      → text_eq r.token_hash hash ≡ false
      → (t t' : Tables) (n : ℕ) → insert_invite r t ≡ ok (n, t')
      → IsSpent hash t
      → IsSpent hash t'
  insert_invite-IsSpent r other t t' n e s =
      rw ((insert_invite-eq-ok t t' n r e).0) (record { rows = (rw other refl, s.rows) })

  create_invite-IsSpent :
      (id h : Text) (now expires : ℕ)
      → text_eq h hash ≡ false
      → Keeps (OnTables (IsSpent hash)) (create_invite id h now expires)
  unfolding create_invite
  create_invite-IsSpent id h now expires other = Keeps-execute _ (insert_invite-IsSpent _ other)

  delete_invites-IsSpent :
      (id : Text) (t : Tables) → IsSpent hash t → IsSpent hash (delete_invites id t)
  unfolding delete_invites
  delete_invites-IsSpent id t s = record { rows = All-filter _ _ t.invites s.rows }

  delete_user-IsSpent : (id : Text) (t : Tables) → IsSpent hash t → IsSpent hash (delete_user id t)
  unfolding delete_user
  delete_user-IsSpent id t s = record { rows = s.rows }

  remove_found-IsSpent :
      (found : Option Text) → Keeps (OnTables (IsSpent hash)) (remove_found found)
  unfolding remove_found
  remove_found-IsSpent none = search keeps_rules
  remove_found-IsSpent (some id) =
      search (keeps_rules, keeping_rules, delete_invites-IsSpent, delete_user-IsSpent) depth 9

  remove_user-IsSpent : (name : Text) → Keeps (OnTables (IsSpent hash)) (remove_user name)
  unfolding remove_user user_id_by_name
  remove_user-IsSpent name = search (keeps_rules, keeping_rules, remove_found-IsSpent) depth 9

-- What can happen to the database later: redemptions of any tokens, invites with other tokens,
-- removals of users, and whatever leaves the invites alone; any statement may fail.
pub data Later (hash : Text) (db : Db) : Db → Type 0 where
  at_once : Later hash db db
  redeemed :
      {d : Db} (h key : Text) (now : ℕ)
      → Later hash db d
      → Later hash db (redeem_invite h key now d).1
  invited :
      {d : Db} (id h : Text) (now expires : ℕ)
      → text_eq h hash ≡ false
      → Later hash db d
      → Later hash db (create_invite id h now expires d).1
  removed : {d : Db} (name : Text) → Later hash db d → Later hash db (remove_user name d).1
  aside :
      {d : Db} (d' : Db) → d'.tables.invites ≡ d.tables.invites → Later hash db d → Later hash db d'

pub Later-IsSpent :
    (hash : Text) {db d : Db} → IsSpent hash db.tables → Later hash db d → IsSpent hash d.tables
Later-IsSpent hash s at_once = s
Later-IsSpent hash s (redeemed {d} h key now l) =
    ((redeem_invite-IsSpent hash h key now).from d
      (record { holds = Later-IsSpent hash s l })).holds
Later-IsSpent hash s (invited {d} id h now expires other l) =
    ((create_invite-IsSpent hash id h now expires other).from d
      (record { holds = Later-IsSpent hash s l })).holds
Later-IsSpent hash s (removed {d} name l) =
    ((remove_user-IsSpent hash name).from d (record { holds = Later-IsSpent hash s l })).holds
Later-IsSpent hash s (aside d' same l) = record { rows = rw same (Later-IsSpent hash s l).rows }

-- An invite is redeemed once: after a redemption that returned a user, in a database whose token
-- hashes are unique, no redemption of that token returns one, whatever has happened since but a new
-- invite with the same token hash.
pub redeem_once :
    (hash key key' : Text) (now now' : ℕ) (db later : Db) (id id' : Text)
    → IsKeyed db.tables
    → (redeem_invite hash key now db).0 ≡ ok (some id)
    → Later hash (redeem_invite hash key now db).1 later
    → (redeem_invite hash key' now' later).0 ≢ ok (some id')
redeem_once hash key key' now now' db later id id' keyed first since =
    IsSpent-redeem_invite hash key' now' later id'
      (Later-IsSpent hash (IsSpent-redeemed hash key now db id keyed first) since)
