-- ===== src/Server/Db/Keyed.antt =====
-- Keys stay unique: what the PRIMARY KEY and UNIQUE columns of the schema promise is kept by every
-- method of `Db`, whichever statements fail.
use railyard.Base.{
  ℕ, ◌≡◌, refl, Text, Option, none, some, List, ok, Distinct, Distinct-update, Distinct-filter,
  Keeps, keeps_rules, arith,
}
use railyard.AuthProtocol.{Crates}
use railyard.Types.{ReleaseStatus}
use railyard.Server.Db.Schema.{
  Tables, UserRow, InviteRow, ProjectRow, ReleaseRow, insert_user, insert_invite, insert_project,
  insert_release,
}
use railyard.Server.Db.Connection.{Action}
use railyard.Server.Db.Keeping.{OnTables, keeping_rules}
use railyard.Server.Db.Users.{
  create_user, user_id_by_name, remove_user, remove_found, add_user, delete_user, delete_invites,
}
use railyard.Server.Db.Invites.{create_invite, redeem_invite, consume, register_key, set_public_key}
use railyard.Server.Db.Projects.{create_project, id_taken, insert_new}
use railyard.Server.Db.Releases.{create_release, set_release_status, update_status}

pub record IsKeyed (t : Tables) : Type 0 where
  pub user_ids : Distinct (λ (u : UserRow). u.id) t.users
  pub user_names : Distinct (λ (u : UserRow). u.name) t.users
  pub hashes : Distinct (λ (i : InviteRow). i.token_hash) t.invites
  pub project_ids : Distinct (λ (p : ProjectRow). p.id) t.projects
  pub project_names : Distinct (λ (p : ProjectRow). p.name) t.projects
  pub release_ids : Distinct (λ (r : ReleaseRow). r.id) t.releases

insert_user-IsKeyed :
    (r : UserRow) (t t' : Tables) (n : ℕ) → insert_user r t ≡ ok (n, t') → IsKeyed t → IsKeyed t'
unfolding insert_user
insert_user-IsKeyed r t t' n e k = ground arith

insert_invite-IsKeyed :
    (r : InviteRow) (t t' : Tables) (n : ℕ)
    → insert_invite r t ≡ ok (n, t')
    → IsKeyed t
    → IsKeyed t'
unfolding insert_invite
insert_invite-IsKeyed r t t' n e k = ground arith

insert_project-IsKeyed :
    (r : ProjectRow) (t t' : Tables) (n : ℕ)
    → insert_project r t ≡ ok (n, t')
    → IsKeyed t
    → IsKeyed t'
unfolding insert_project
insert_project-IsKeyed r t t' n e k = ground arith

insert_release-IsKeyed :
    (r : ReleaseRow) (t t' : Tables) (n : ℕ)
    → insert_release r t ≡ ok (n, t')
    → IsKeyed t
    → IsKeyed t'
unfolding insert_release
insert_release-IsKeyed r t t' n e k = ground arith

delete_invites-IsKeyed : (id : Text) (t : Tables) → IsKeyed t → IsKeyed (delete_invites id t)
unfolding delete_invites
delete_invites-IsKeyed id t k = record {
  user_ids = k.user_ids;
  user_names = k.user_names;
  hashes = Distinct-filter _ _ t.invites k.hashes;
  project_ids = k.project_ids;
  project_names = k.project_names;
  release_ids = k.release_ids;
}

delete_user-IsKeyed : (id : Text) (t : Tables) → IsKeyed t → IsKeyed (delete_user id t)
unfolding delete_user
delete_user-IsKeyed id t k = record {
  user_ids = Distinct-filter _ _ t.users k.user_ids;
  user_names = Distinct-filter _ _ t.users k.user_names;
  hashes = k.hashes;
  project_ids = k.project_ids;
  project_names = k.project_names;
  release_ids = k.release_ids;
}

marked-IsKeyed : (hash : Text) (now : ℕ) (t : Tables) → IsKeyed t → IsKeyed (consume hash now t).1
unfolding consume
marked-IsKeyed hash now t k = record {
  user_ids = k.user_ids;
  user_names = k.user_names;
  hashes = Distinct-update _ _ _ (λ r. refl) t.invites k.hashes;
  project_ids = k.project_ids;
  project_names = k.project_names;
  release_ids = k.release_ids;
}

consume-IsKeyed :
    (hash : Text) (now : ℕ) (t t' : Tables) (n : ℕ)
    → ok (consume hash now t) ≡ ok (n, t')
    → IsKeyed t
    → IsKeyed t'
consume-IsKeyed hash now t t' n e k =
    let same : (consume hash now t).1 ≡ t' = cc in rw (← same) (marked-IsKeyed hash now t k)

set_public_key-IsKeyed :
    (key id : Text) (t : Tables) → IsKeyed t → IsKeyed (set_public_key key id t)
unfolding set_public_key
set_public_key-IsKeyed key id t k = record {
  user_ids = Distinct-update _ _ _ (λ r. refl) t.users k.user_ids;
  user_names = Distinct-update _ _ _ (λ r. refl) t.users k.user_names;
  hashes = k.hashes;
  project_ids = k.project_ids;
  project_names = k.project_names;
  release_ids = k.release_ids;
}

update_status-IsKeyed :
    (id : Text) (status : ReleaseStatus) (error : Option Text) (now : ℕ) (t : Tables)
    → IsKeyed t
    → IsKeyed (update_status id status error now t)
unfolding update_status
update_status-IsKeyed id status error now t k = record {
  user_ids = k.user_ids;
  user_names = k.user_names;
  hashes = k.hashes;
  project_ids = k.project_ids;
  project_names = k.project_names;
  release_ids = Distinct-update _ _ _ (λ r. refl) t.releases k.release_ids;
}

ruleset keyed_rules = (
  keeps_rules, keeping_rules, insert_user-IsKeyed, insert_invite-IsKeyed, insert_project-IsKeyed,
  insert_release-IsKeyed, delete_invites-IsKeyed, delete_user-IsKeyed, consume-IsKeyed,
  set_public_key-IsKeyed, update_status-IsKeyed,
)

abbrev pub KeepsKeys : {A : Type 0} → Action A → Type 0
KeepsKeys m = Keeps (OnTables IsKeyed) m

pub create_user-KeepsKeys :
    (crates : Crates) (bytes : List ℕ) (name : Text) (project_id : Option Text) (now : ℕ)
    → KeepsKeys (create_user crates bytes name project_id now)
unfolding create_user user_id_by_name add_user
create_user-KeepsKeys crates bytes name project_id now = search keyed_rules depth 9

remove_found-KeepsKeys : (found : Option Text) → KeepsKeys (remove_found found)
unfolding remove_found
remove_found-KeepsKeys none = search keyed_rules
remove_found-KeepsKeys (some id) = search keyed_rules depth 9

pub remove_user-KeepsKeys : (name : Text) → KeepsKeys (remove_user name)
unfolding remove_user
remove_user-KeepsKeys name = search (keyed_rules, remove_found-KeepsKeys) depth 9

pub create_invite-KeepsKeys :
    (id hash : Text) (now expires : ℕ) → KeepsKeys (create_invite id hash now expires)
unfolding create_invite
create_invite-KeepsKeys id hash now expires = search keyed_rules depth 9

register_key-KeepsKeys : (key : Text) (found : Option Text) → KeepsKeys (register_key key found)
unfolding register_key
register_key-KeepsKeys key none = search keyed_rules
register_key-KeepsKeys key (some id) = search keyed_rules depth 9

pub redeem_invite-KeepsKeys : (hash key : Text) (now : ℕ) → KeepsKeys (redeem_invite hash key now)
unfolding redeem_invite
redeem_invite-KeepsKeys hash key now = search (keyed_rules, register_key-KeepsKeys) depth 9

id_taken-KeepsKeys : (id : Option Text) → KeepsKeys (id_taken id)
unfolding id_taken
id_taken-KeepsKeys none = search keyed_rules
id_taken-KeepsKeys (some id) = search keyed_rules depth 9

insert_new-KeepsKeys : (id name : Text) (now : ℕ) → KeepsKeys (insert_new id name now)
unfolding insert_new
insert_new-KeepsKeys id name now = search keyed_rules depth 9

pub create_project-KeepsKeys :
    (crates : Crates) (bytes : List ℕ) (name : Text) (id : Option Text) (now : ℕ)
    → KeepsKeys (create_project crates bytes name id now)
unfolding create_project
create_project-KeepsKeys crates bytes name id now =
    search (keyed_rules, id_taken-KeepsKeys, insert_new-KeepsKeys) depth 9

pub create_release-KeepsKeys :
    (crates : Crates) (bytes : List ℕ) (project_id : Text) (status : ReleaseStatus)
    (message : Option Text) (now : ℕ)
    → KeepsKeys (create_release crates bytes project_id status message now)
unfolding create_release
create_release-KeepsKeys crates bytes project_id status message now = search keyed_rules depth 9

pub set_release_status-KeepsKeys :
    (id : Text) (status : ReleaseStatus) (error : Option Text) (now : ℕ)
    → KeepsKeys (set_release_status id status error now)
unfolding set_release_status
set_release_status-KeepsKeys id status error now = search keyed_rules
