-- ===== src/Server/Db/Users.antt =====
-- apps/server/src/api/db/user.rs
use railyard.Base.{
  pure, ◌>>=◌, ◌>>◌, ℕ, ◌++◌, ◌&&◌, ◌||◌, not, Bool, true, false, Text, txt, text_eq, text_lt,
  Option, none, some, List, map, filter, find, is_some, sort_by, if◌then◌else◌,
}
use mathlib.Core.Option
use railyard.AuthProtocol.{Crates}
use railyard.Server.Db.Schema.{Tables, UserRow, InviteRow, insert_user, i64_lt}
use railyard.Server.Db.Connection.{Action, query, execute, execute_all}

pub record User : Type 0 where
  pub id : Text
  pub name : Text
  pub project_id : Option Text
  pub has_key : Bool
  pub created_at : ℕ

-- `project_id` of `none` is a server-wide admin.
pub record AuthUser : Type 0 where
  pub id : Text
  pub name : Text
  pub project_id : Option Text

unfoldable pub user_id_by_name : Text → Action (Option Text)
user_id_by_name name =
    query (λ t. Option.map (λ (u : UserRow). u.id) (find (λ u. text_eq u.name name) t.users))

-- the id made of the bytes drawn at random
unfoldable pub new_user_id : Crates → List ℕ → Text
new_user_id crates bytes = txt "usr_" ++ crates.hex_encode bytes

unfoldable pub add_user : UserRow → Action (Option Text)
add_user row = do execute (insert_user row); pure (some row.id)

unfoldable pub create_user : Crates → List ℕ → Text → Option Text → ℕ → Action (Option Text)
unfolding user_id_by_name new_user_id add_user
create_user crates bytes name project_id now = do
  taken ← user_id_by_name name
  if is_some taken
      then pure none
      else add_user (record {
        id = new_user_id crates bytes;
        name = name;
        public_key = none;
        project_id = project_id;
        created_at = now;
      })

-- `ORDER BY created_at, name`
unfoldable pub user_before : UserRow → UserRow → Bool
user_before a b =
    i64_lt a.created_at b.created_at
    || not (i64_lt b.created_at a.created_at) && not (text_lt b.name a.name)

user_from_row : UserRow → User
user_from_row u = record {
  id = u.id;
  name = u.name;
  project_id = u.project_id;
  has_key = is_some u.public_key;
  created_at = u.created_at;
}

unfoldable pub list_users : Action (List User)
unfolding user_from_row
list_users = query (λ t. map user_from_row (sort_by user_before t.users))

-- `DELETE FROM invites WHERE user_id = ?1`
unfoldable pub delete_invites : Text → Tables → Tables
delete_invites user_id t = record t {
  invites = filter (λ (i : InviteRow). not (text_eq i.user_id user_id)) t.invites;
}

-- `DELETE FROM users WHERE id = ?1`
unfoldable pub delete_user : Text → Tables → Tables
delete_user user_id t = record t {
  users = filter (λ (u : UserRow). not (text_eq u.id user_id)) t.users;
}

-- the invites first, so that none is left without its user
unfoldable pub remove_found : Option Text → Action Bool
remove_found none = pure false
remove_found (some user_id) = do
  execute_all (delete_invites user_id)
  execute_all (delete_user user_id)
  pure true

unfoldable pub remove_user : Text → Action Bool
unfolding user_id_by_name delete_invites delete_user remove_found
remove_user name = do found ← user_id_by_name name; remove_found found

-- the row of a key: its user has one
abbrev pub owns_key : Text → UserRow → Bool
owns_key key_id u = text_eq u.id key_id && is_some u.public_key

auth_user : UserRow → AuthUser
auth_user u = record { id = u.id; name = u.name; project_id = u.project_id }

key_columns : UserRow → Option (Text × AuthUser)
unfolding auth_user
key_columns u = Option.map (λ key. (key, auth_user u)) u.public_key

unfoldable pub key_owner : Text → Action (Option (Text × AuthUser))
unfolding key_columns
key_owner key_id = query (λ t. Option.bind (find (owns_key key_id) t.users) key_columns)
