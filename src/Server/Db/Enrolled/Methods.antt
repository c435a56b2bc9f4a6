-- ===== src/Server/Db/Enrolled/Methods.antt =====
-- No invite is left without its user: every method of `Db` keeps it, whichever statements fail.
use railyard.Base.{
  ℕ, ◌≡◌, refl, true, Text, Option, none, some, List, ok, Bool-cases, inl, inr, any, Keeps,
  Keeps-bind_after, >>=-eq-ok, state-bind-pure, text_eq_refl, is_some, pure,
}
use mathlib.Core.Path.{subst⁻¹}
use railyard.AuthProtocol.{Crates}
use railyard.Types.{ReleaseStatus}
use railyard.Server.Db.Schema.{UserRow, InviteRow, insert_user, insert_invite}
use railyard.Server.Db.Connection.{Db, Action, execute_all}
use railyard.Server.Db.Inserts.{insert_user-eq-ok}
use railyard.Server.Db.Keeping.{
  OnTables, execute-eq-ok, execute_all-eq-ok, tables-execute, tables-execute_all, Keeps-execute_all,
}
use railyard.Server.Db.Users.{
  create_user, user_id_by_name, remove_user, remove_found, add_user, delete_user, delete_invites,
}
use railyard.Server.Db.Invites.{create_invite, redeem_invite, invite_user, register_key}
use railyard.Server.Db.Projects.{create_project, id_taken, insert_new}
use railyard.Server.Db.Releases.{create_release, set_release_status}
use railyard.Server.Db.Enrolled.{
  enrolled_rules, HasUser, IsEnrolled, insert_invite-IsEnrolled, delete_invites-IsEnrolled,
  delete_both-IsEnrolled,
}

abbrev pub KeepsEnrolled : {A : Type 0} → Action A → Type 0
KeepsEnrolled m = Keeps (OnTables IsEnrolled) m

pub create_user-KeepsEnrolled :
    (crates : Crates) (bytes : List ℕ) (name : Text) (project_id : Option Text) (now : ℕ)
    → KeepsEnrolled (create_user crates bytes name project_id now)
unfolding create_user user_id_by_name add_user
create_user-KeepsEnrolled crates bytes name project_id now = search enrolled_rules depth 9

remove_found-KeepsEnrolled : (found : Option Text) → KeepsEnrolled (remove_found found)
unfolding remove_found
remove_found-KeepsEnrolled none = search enrolled_rules
remove_found-KeepsEnrolled (some id) =
    Keeps-bind_after _ _ (Keeps-execute_all (delete_invites id) (delete_invites-IsEnrolled id))
      λ _ db done before between. record {
        holds =
            subst⁻¹ (λ (d : Db). IsEnrolled d.tables) (state-bind-pure _ (λ _. true) _)
              (elim (tables-execute_all (delete_user id) (execute_all (delete_invites id) db).1) [
                | inl same ↦ rw same between.holds
                | inr gone ↦ rw gone (
                    rw (execute_all-eq-ok (delete_invites id) db done)
                      (delete_both-IsEnrolled id db.tables before.holds))
              ]);
      }

pub remove_user-KeepsEnrolled : (name : Text) → KeepsEnrolled (remove_user name)
unfolding remove_user user_id_by_name
remove_user-KeepsEnrolled name = search (enrolled_rules, remove_found-KeepsEnrolled) depth 9

register_key-KeepsEnrolled :
    (key : Text) (found : Option Text) → KeepsEnrolled (register_key key found)
unfolding register_key
register_key-KeepsEnrolled key none = search enrolled_rules
register_key-KeepsEnrolled key (some id) = search enrolled_rules depth 9

pub redeem_invite-KeepsEnrolled :
    (hash key : Text) (now : ℕ) → KeepsEnrolled (redeem_invite hash key now)
unfolding redeem_invite invite_user
redeem_invite-KeepsEnrolled hash key now =
    search (enrolled_rules, register_key-KeepsEnrolled) depth 9

id_taken-KeepsEnrolled : (id : Option Text) → KeepsEnrolled (id_taken id)
unfolding id_taken
id_taken-KeepsEnrolled none = search enrolled_rules
id_taken-KeepsEnrolled (some id) = search enrolled_rules depth 9

insert_new-KeepsEnrolled : (id name : Text) (now : ℕ) → KeepsEnrolled (insert_new id name now)
unfolding insert_new
insert_new-KeepsEnrolled id name now = search enrolled_rules depth 9

pub create_project-KeepsEnrolled :
    (crates : Crates) (bytes : List ℕ) (name : Text) (id : Option Text) (now : ℕ)
    → KeepsEnrolled (create_project crates bytes name id now)
unfolding create_project
create_project-KeepsEnrolled crates bytes name id now =
    search (enrolled_rules, id_taken-KeepsEnrolled, insert_new-KeepsEnrolled) depth 9

pub create_release-KeepsEnrolled :
    (crates : Crates) (bytes : List ℕ) (project_id : Text) (status : ReleaseStatus)
    (message : Option Text) (now : ℕ)
    → KeepsEnrolled (create_release crates bytes project_id status message now)
unfolding create_release
create_release-KeepsEnrolled crates bytes project_id status message now =
    search enrolled_rules depth 9

pub set_release_status-KeepsEnrolled :
    (id : Text) (status : ReleaseStatus) (error : Option Text) (now : ℕ)
    → KeepsEnrolled (set_release_status id status error now)
unfolding set_release_status
set_release_status-KeepsEnrolled id status error now = search enrolled_rules

add_user-HasUser :
    (row : UserRow) (db : Db) (id : Text)
    → (add_user row db).0 ≡ ok (some id)
    → HasUser id (add_user row db).1.tables.users
unfolding add_user pure any
add_user-HasUser row db id e =
    let (n, inserted, e₁, s₁) = >>=-eq-ok _ _ db e in
    let (t, done, same) = execute-eq-ok (insert_user row) db n inserted in
    let is_id : row.id ≡ id = cc in
    rw s₁ (
      rw same
        (rw ((insert_user-eq-ok db.tables t n row done).0) (rw is_id (rw (text_eq_refl id) refl))))

-- A user that `create_user` reports is there.
pub create_user-HasUser :
    (crates : Crates) (bytes : List ℕ) (name : Text) (project_id : Option Text) (now : ℕ) (db : Db)
    (id : Text)
    → (create_user crates bytes name project_id now db).0 ≡ ok (some id)
    → HasUser id (create_user crates bytes name project_id now db).1.tables.users
unfolding create_user pure
create_user-HasUser crates bytes name project_id now db id e =
    let (taken, _, e₁, s₁) = >>=-eq-ok _ _ db e in
    rw s₁ (elim (Bool-cases (is_some taken)) [
      | inl old ↦ absurd (cc (rw old at e₁))
      | inr new ↦ rw new (add_user-HasUser _ _ id (rw new at e₁))
    ])

-- An invite for a user that is there keeps every invite with its user.
pub create_invite-IsEnrolled :
    (id hash : Text) (now expires : ℕ) (db : Db)
    → HasUser id db.tables.users
    → IsEnrolled db.tables
    → IsEnrolled (create_invite id hash now expires db).1.tables
unfolding create_invite
create_invite-IsEnrolled id hash now expires db has h =
    let row : InviteRow = record {
      token_hash = hash;
      user_id = id;
      expires_at = expires;
      redeemed_at = none;
      created_at = now;
    } in
    elim (tables-execute (insert_invite row) db) [
      | inl same ↦ rw same h
      | inr (n, t, done, e) ↦ rw e (insert_invite-IsEnrolled row db.tables t n has done h)
    ]
