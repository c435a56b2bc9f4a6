-- ===== src/Server/Db/Lost.antt =====
-- A redemption whose last statement fails: the invite is gone and no key is registered.
use mathlib.Core.Path.{subst⁻¹}
use railyard.Base.{
  ℕ, suc, ◌≡◌, ◌≢◌, refl, ap, ◌∙◌, ◌==◌, true, false, Text, Option, none, some, List, [], ◌∷◌,
  length, find, filter, Result, ok, err, ◌>>=◌, arith,
}
use railyard.Server.Db.Schema.{Tables, InviteRow}
use railyard.Server.Db.Connection.{Db, Action, query, execute, execute_all, db_error}
use railyard.Server.Db.Invites.{redeem_invite, redeemable, consume, invite_user, register_key}
use railyard.Server.Db.Keyed.{IsKeyed}
use railyard.Server.Db.Redeeming.{has_hash, find-marked}
use railyard.Server.Db.SingleUse.{
  IsSpent, IsSpent-redeem_invite, Later, Later-IsSpent, found_redeemable, marked_spent,
}

length-ne-zero : (rows : List InviteRow) → rows ≢ [] → (length rows == 0) ≡ false
length-ne-zero [] ne = absurd (ne refl)
length-ne-zero (r ∷ rows) ne = ground arith

-- a chain whose first step is known
module _ {A B : Type 0} (m : Action A) (f : A → Action B) (db db' : Db) where
  bind-ok : (a : A) → m db ≡ (ok a, db') → (m >>= f) db ≡ f a db'
  unfolding ◌>>=◌
  bind-ok a e = rw e refl

  bind-err : (why : Text) → m db ≡ (err why, db') → (m >>= f) db ≡ (err why, db')
  unfolding ◌>>=◌
  bind-err why e = rw e refl

-- one statement whose fault is known
abbrev counted : Db → Db
counted db = record db { statements = suc db.statements }

query-works :
    {A : Type 0} (select : Tables → A) (db : Db)
    → db.faults db.statements ≡ none
    → query select db ≡ (ok (select db.tables), counted db)
unfolding query
query-works select db works = rw (works, query) refl

execute-works :
    (n : ℕ) (t : Tables) (change : Tables → Result (ℕ × Tables)) (db : Db)
    → change db.tables ≡ ok (n, t)
    → db.faults db.statements ≡ none
    → execute change db ≡ (ok n, record (counted db) { tables = t })
unfolding execute
execute-works n t change db done works = rw (works, execute) (rw done refl)

execute_all-fails :
    (why : Text) (change : Tables → Tables) (db : Db)
    → db.faults db.statements ≡ some why
    → execute_all change db ≡ (err (db_error why), counted db)
unfolding execute_all db_error
execute_all-fails why change db fails = rw (fails, execute_all) refl

module _ (hash key : Text) (now : ℕ) (db : Db) (i : InviteRow) (why : Text) where
  abbrev lost : Result (Option Text) × Db
  lost = redeem_invite hash key now db

  abbrev consumed : ℕ × Tables
  consumed = consume hash now db.tables

  abbrev db₁ : Db
  db₁ = record (counted db) { tables = consumed.1 }

  registering :
      (user : Text)
      → db.faults (suc (suc db.statements)) ≡ some why
      → register_key key (some user) (counted db₁) ≡ (err (db_error why), counted (counted db₁))
  unfolding register_key
  registering user third =
      bind-err _ _ _ _ (db_error why) (execute_all-fails why _ (counted db₁) third)

  looking :
      find (has_hash hash) db.tables.invites ≡ some i
      → db.faults (suc db.statements) ≡ none
      → invite_user hash db₁ ≡ (ok (some i.user_id), counted db₁)
  unfolding invite_user consume
  looking found second =
      query-works _ db₁ second
      ∙ ap (λ o. (ok o, counted db₁))
          (find-marked hash (redeemable hash now) now db.tables.invites i found)

  lost_state :
      find (has_hash hash) db.tables.invites ≡ some i
      → redeemable hash now i ≡ true
      → db.faults db.statements ≡ none
      → db.faults (suc db.statements) ≡ none
      → db.faults (suc (suc db.statements)) ≡ some why
      → lost ≡ (err (db_error why), counted (counted db₁))
  unfolding redeem_invite consume
  lost_state found at first second third =
      let some' =
        length-ne-zero (filter (redeemable hash now) db.tables.invites)
          (found_redeemable hash now db.tables.invites i found at) in
      bind-ok _ _ db db₁ consumed.0
        (execute-works consumed.0 consumed.1 (λ t. ok (consume hash now t)) db refl first)
      ∙ rw some' (
          bind-ok _ _ db₁ (counted db₁) (some i.user_id) (looking found second)
          ∙ registering i.user_id third)

  -- In a database with unique keys, where the first two statements of a redemption of a redeemable
  -- invite work and the third fails, the answer is the error, no user has changed, and no later
  -- redemption of the token returns a user.
  pub redeem_lost :
      IsKeyed db.tables
      → find (has_hash hash) db.tables.invites ≡ some i
      → redeemable hash now i ≡ true
      → db.faults db.statements ≡ none
      → db.faults (suc db.statements) ≡ none
      → db.faults (suc (suc db.statements)) ≡ some why
      → (lost.0 ≡ err (db_error why))
        × (lost.1.tables.users ≡ db.tables.users)
        × ((key' : Text) (now' : ℕ) (later : Db) (id : Text)
            → Later hash lost.1 later
            → (redeem_invite hash key' now' later).0 ≢ ok (some id))
  unfolding consume
  redeem_lost keyed found at first second third =
      let after = lost_state found at first second third in
      let state = ap (λ (r : Result (Option Text) × Db). r.1.tables) after in
      let spent : IsSpent hash lost.1.tables = subst⁻¹ (IsSpent hash) state (record {
        rows =
            marked_spent hash now db.tables.invites keyed.hashes
              (found_redeemable hash now db.tables.invites i found at);
      }) in
      (
        ap (λ (r : Result (Option Text) × Db). r.0) after,
        ap (λ (t : Tables). t.users) state,
        λ key' now' later id since.
            IsSpent-redeem_invite hash key' now' later id (Later-IsSpent hash spent since),
      )
