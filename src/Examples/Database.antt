-- ===== src/Examples/Database.antt =====
-- The database and the routes of the toy server.
use railyard.Base.{
  ◌>>=◌, ◌≡◌, ◌≢◌, [], ◌∷◌, err, refl, pure, text_eq, any, filter, find, update, txt, none, some,
  ok,
}
use railyard.Server.Db.{query, execute, execute_all, i64_lt}
use railyard.Server.Db.Users
use railyard.Server.Db.Users.{AuthUser, remove_found, user_id_by_name, delete_invites, delete_user}
use railyard.Server.Db.Invites.{redeem_invite, redeemable, consume, invite_user, register_key}
use railyard.Server.Db.Keyed.{IsKeyed}
use railyard.Server.Db.Enrolled.{IsEnrolled}
use railyard.Server.Db.Redeemed.{IsRedeemed, redeem_invite-IsRedeemed}
use railyard.Server.Db.SingleUse.{Later, redeem_once}
use railyard.Server.Routes.{
  Call, SignedCall, handle, signed_routes, admin_routes, protected_routes, is_buffered, with_caller,
  for_user, remove_user, user_removed,
}
use railyard.Server.Signatures.{verify_body_hash}
use railyard.Server.Routes.Soundness.{IsSound, signed_routes-IsSound, admin_routes-IsSound}
use railyard.Server.Routes.Confinement.{IsConfined, handle-IsConfined}
use railyard.Server.Requests.{ApiState, refuse_if, with_db}
use railyard.Server.AdminCli
use railyard.Server.AdminCli.{Socket, Terminal, admin_request, removal_shown, print}
use railyard.Server.AdminCli.Removal.{IsShown, carried, remove-IsShown}
use railyard.Examples.Data.{toy, a_state, some_db, some_tables, request_at, a_key}

pub keyed : IsKeyed some_tables
unfolding any text_eq txt
keyed = record {
  user_ids = (refl, tt);
  user_names = (refl, tt);
  hashes = (refl, tt);
  project_ids = tt;
  project_names = tt;
  release_ids = tt;
}

enrolled : IsEnrolled some_tables
unfolding any text_eq txt
enrolled = record { of_users = (refl, tt) }

sound : IsSound some_tables
sound = record { keyed = keyed; enrolled = enrolled }

redeemed : (redeem_invite (txt "token") a_key 1000 some_db).0 ≡ ok (some (txt "usr_1"))
unfolding redeem_invite ◌>>=◌ pure execute consume redeemable filter text_eq txt invite_user query
    find register_key execute_all i64_lt update
redeemed = refl

redeem_invite-IsRedeemed_example :
    IsRedeemed
      (txt "token")
      a_key
      1000
      (txt "usr_1")
      some_tables
      (redeem_invite (txt "token") a_key 1000 some_db).1.tables
redeem_invite-IsRedeemed_example =
    redeem_invite-IsRedeemed (txt "token") a_key 1000 some_db (txt "usr_1") keyed redeemed

redeem_once_example :
    (redeem_invite (txt "token") a_key 1500 (redeem_invite (txt "token") a_key 1000 some_db).1).0
    ≢ ok (some (txt "usr_1"))
redeem_once_example =
    redeem_once (txt "token") a_key a_key 1000 1500 some_db
      (redeem_invite (txt "token") a_key 1000 some_db).1 (txt "usr_1") (txt "usr_1") keyed redeemed
      Later.at_once

signed_routes-IsSound_example :
    IsSound
      (signed_routes toy 1000
        (SignedCall.protected (Call.drop_user (txt "ann")) (request_at 1000))
        a_state).1.db.tables
signed_routes-IsSound_example =
    signed_routes-IsSound toy 1000
      (SignedCall.protected (Call.drop_user (txt "ann")) (request_at 1000)) a_state sound

admin_routes-IsSound_example :
    IsSound (admin_routes toy (Call.drop_user (txt "ann")) (request_at 1000) a_state).1.db.tables
admin_routes-IsSound_example =
    admin_routes-IsSound toy (Call.drop_user (txt "ann")) (request_at 1000) a_state sound

abbrev scoped : AuthUser
scoped = record { id = txt "usr_2"; name = txt "bob"; project_id = some (txt "prj_1") }

handle-IsConfined_example :
    IsConfined
      (txt "prj_1")
      some_tables
      (handle toy (Call.drop_user (txt "ann")) scoped none a_state).1.db.tables
handle-IsConfined_example =
    handle-IsConfined toy (Call.drop_user (txt "ann")) scoped none (txt "prj_1") a_state refl

-- a socket at which the daemon answers every request as the removal of ann
abbrev a_socket : Socket ApiState
a_socket = record {
  unreachable = λ st. none;
  exchange = λ method path headers body st.
      carried (λ b. []) (admin_routes toy (Call.drop_user (txt "ann")) (request_at 1000) st);
  create_user_to = λ r. ok r.name;
  created_user_from = λ bytes. err (txt "invalid");
  users_from = λ bytes. err (txt "invalid");
  unix_timestamp = λ st. 1000;
  number = λ n. n ∷ [];
  status_text = λ n. n ∷ [];
  from_utf8_lossy = λ bytes. bytes;
}

abbrev a_terminal : Terminal ApiState
a_terminal = record { lines = []; daemon = a_state }

removed : (AdminCli.remove a_socket (txt "ann") a_terminal).0 ≡ ok tt
unfolding AdminCli.remove admin_request removal_shown print admin_routes protected_routes
    is_buffered verify_body_hash with_caller for_user handle remove_user user_removed refuse_if
    with_db Users.remove_user remove_found user_id_by_name delete_invites delete_user query
    execute_all find filter text_eq txt ◌>>=◌ pure
removed = refl

remove-IsShown_example :
    IsShown (txt "ann") a_terminal (AdminCli.remove a_socket (txt "ann") a_terminal).1
remove-IsShown_example =
    remove-IsShown toy a_socket (λ b. []) (txt "ann") (request_at 1000) refl (λ st. refl) a_terminal
      keyed removed
